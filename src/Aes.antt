-- ===== src/Aes.antt =====
-- shared/Encryption/AES.h: the GCM initialisation vector and the random keys.
pub mod Gcm
use necroauth.Prelude.{ℕ, ◌+◌, ◌%◌, ◌^◌, List, [], ◌∷◌, ◌++◌, Result, ok, fault, Fault, le_bytes}

-- `IV`: a random prefix of 32 bits and a counter of 64.
pub record Iv : Type 0 where
  pub prefix : ℕ
  pub counter : ℕ

-- What `RAND_bytes` delivers: prefixes for `RandomizePrefix`, and arrays of key size.
pub record Random : Type 0 where
  pub prefixes : List ℕ
  pub keys : List (List ℕ)

abbrev pub reset_counter : Iv → Iv
reset_counter iv = record iv { counter = 0 }

unfoldable pub increment_counter : Iv → Iv
increment_counter iv = record iv { counter = (iv.counter + 1) % 2 ^ 64 }

-- `ToByteArray`
unfoldable pub to_byte_array : Iv → List ℕ
to_byte_array iv = le_bytes 4 iv.prefix ++ le_bytes 8 iv.counter

-- `GenerateSessionKey()` throws when `RAND_bytes` fails: here, when no key is left.
abbrev generate_from : Random → List (List ℕ) → Result (List ℕ × Random)
generate_from g [] = fault Fault.thrown
generate_from g (k ∷ ks) = ok (k, record g { keys = ks })

unfoldable pub generate_session_key : Random → Result (List ℕ × Random)
generate_session_key g = generate_from g g.keys
