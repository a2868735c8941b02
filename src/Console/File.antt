-- ===== src/Console/File.antt =====
-- `Console::Init` and `Console::Shutdown`: the history and its file. A file is its bytes, `none` if it
-- cannot be opened.
use necroauth.Prelude.{
  ℕ, ◌==◌, Bool, true, false, leb, if◌then◌else◌, List, [], ◌∷◌, ◌++◌, length, Option, none, some,
}
use necroauth.Console.{Console, history_max_length}
use necroauth.Console.Text.{push}
use necroauth.Console.Command.{codes}
use necroauth.Server.Session.{bytes_eq}

-- The lines that are not empty, as `std::getline` reads them, with the line that is being read.
unfoldable pub read_lines : List ℕ → List ℕ → List (List ℕ)
read_lines line [] = push line []
read_lines line (b ∷ bs) =
    if b == 10 then push line (read_lines [] bs) else read_lines (line ++ b ∷ []) bs

unfoldable pub load_history : Option (List ℕ) → List (List ℕ)
unfolding read_lines
load_history none = []
load_history (some file) = read_lines [] file

-- `Init()`, without the input field and the commands.
unfoldable pub init : Option (List ℕ) → Console → Console
init file c = record c { history = c.history ++ load_history file }

-- `c_str()` ends at a zero byte.
abbrev pub c_str : List ℕ → List ℕ
c_str [] = []
c_str (b ∷ bs) = if b == 0 then [] else b ∷ c_str bs

-- The loop of `Shutdown`.
unfoldable pub write_history : List (List ℕ) → List ℕ
write_history [] = []
write_history (cmd ∷ cmds) =
    if bytes_eq cmd (codes "qqq") then write_history cmds else c_str cmd ++ 10 ∷ write_history cmds

abbrev pub contents : Option (List ℕ) → List ℕ
contents none = []
contents (some bytes) = bytes

-- `Shutdown()`: the new file and the value that is returned. `file` is the old one, `opened` is
-- whether it can be opened for writing.
unfoldable pub shutdown : Bool → Option (List ℕ) → Console → Option (List ℕ) × ℕ
unfolding write_history
shutdown false file c = (file, 1)
shutdown true file c = (
  some (
      (if leb history_max_length (length c.history) then [] else contents file)
      ++ write_history c.history),
  0,
)
