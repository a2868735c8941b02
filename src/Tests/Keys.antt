-- ===== src/Tests/Keys.antt =====
-- The keys that the server draws.
use necroauth.Prelude.{ℕ, List, replicate}

abbrev pub key : List ℕ
key = replicate 16 3

abbrev pub greetcode : List ℕ
greetcode = replicate 16 9
