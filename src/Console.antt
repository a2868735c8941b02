-- ===== src/Console.antt =====
-- NECROClient/Engine/Console: Console.h, Console.cpp and Cmd.cpp, with what they use of InputField.cpp
-- and ClientUtility.h. Strings are their bytes, an `int` is taken as unbounded. What commands change
-- outside of the console is a `Game`. Drawing is left out.
pub mod Text
pub mod Command
pub mod File
pub mod Restart
pub mod Bounds
pub mod Browse
use necroauth.Prelude.{
  ℕ, zero, suc, ◌+◌, ◌-◌, ◌%◌, ◌^◌, ◌==◌, Bool, true, false, not, ◌&&◌, ◌||◌, ltb, leb,
  if◌then◌else◌, List, [], ◌∷◌, ◌++◌, length, get_elem?, Option, none, some, Result, ok, fault,
  Fault, ◌>>=◌, ℤ, pos, negsuc,
}
use necroauth.Console.Text.{is_whitespace_string, split_input, lowercase}
use necroauth.Console.Command.{Game, Cmd, find_cmd, execute}

abbrev pub logs_max_length : ℕ
logs_max_length = 128

abbrev pub history_max_length : ℕ
history_max_length = 32

abbrev pub max_lines_per_page : ℕ
max_lines_per_page = 5

-- `Console`, with the text and the focus of its `m_inputField`.
pub record Console : Type 0 where
  pub active : Bool
  pub logs : List (List ℕ)
  pub history : List (List ℕ)
  pub cur_line_offset : ℕ
  pub cur_history_index : ℤ
  pub str : List ℕ
  pub focused : Bool

-- `if (v.size() >= max) v.erase(v.begin());`
abbrev pub drop_first {ℓ} : {A : Type ℓ} → ℕ → List A → List A
drop_first max [] = []
drop_first max (x ∷ xs) = if leb max (suc (length xs)) then xs else x ∷ xs

-- `Log(const std::string&)`
unfoldable pub log : List ℕ → Console → Console
log s c = record c { logs = drop_first logs_max_length c.logs ++ s ∷ [] }

unfoldable pub log_all : List (List ℕ) → Console → Console
log_all [] c = c
log_all (s ∷ ss) c = log_all ss (log s c)

-- What a command does: its lines are logged, and its value is returned.
abbrev pub run : Option Cmd → List (List ℕ) → Console → Game → Console × Game × ℕ
run none args c g = (c, g, 1)
run (some cmd) args c g = let (lines, h, value) = execute cmd args g in (log_all lines c, h, value)

abbrev pub dispatch : List (List ℕ) → Console → Game → Console × Game × ℕ
dispatch [] c g = (c, g, 1)
dispatch (name ∷ args) c g = run (find_cmd (lowercase name)) (lowercase name ∷ args) c g

abbrev pub remember : List ℕ → Console → Console
remember cmd c = record c { history = drop_first history_max_length c.history ++ cmd ∷ [] }

-- `SendCmd(const std::string&)`
unfoldable pub send_cmd : List ℕ → Console → Game → Console × Game × ℕ
send_cmd cmd c g = dispatch (split_input cmd) (log (b'>' ∷ b' ' ∷ cmd) (remember cmd c)) g

-- `InputField::SetFocused(bool)`
abbrev pub set_focused : Bool → Console → Console
set_focused f c = record c { focused = f; str = if f then [] else c.str }

abbrev pub sent : Console × Game × ℕ → Console × Game
sent (c, g, value) = (if value == 0 then record c { active = false } else c, g)

abbrev pub opened : Console → Console
opened c = record c { active = true; cur_line_offset = 0; cur_history_index = negsuc 0 }

abbrev pub submitted : Console → Game → Console × Game
submitted c g =
    if ltb 0 (length c.str) && not (is_whitespace_string c.str)
    then sent (send_cmd c.str c g)
    else (record c { active = false }, g)

abbrev pub switched : Console → Game → Console × Game
switched c g = if c.active then submitted c g else (opened c, g)

-- `Toggle()`
unfoldable pub toggle : Console → Game → Console × Game
toggle c g = let d = switched c g in (set_focused d.0.active d.0, d.1)

-- The keys that are down, as `Update` asks for them.
pub record Keys : Type 0 where
  pub enter : Bool
  pub page_up : Bool
  pub page_down : Bool
  pub up : Bool
  pub down : Bool

-- `m_curLineOffset`, moved by a page and clamped.
abbrev pub scroll : Keys → Console → Console
scroll k c =
    let moved =
      if k.page_up
      then c.cur_line_offset + max_lines_per_page
      else (if k.page_down then c.cur_line_offset - max_lines_per_page else c.cur_line_offset) in
    record c { cur_line_offset = if ltb (length c.history) moved then length c.history else moved }

-- `size - 1`, of type `size_t`.
abbrev pub last_index : ℕ → ℕ
last_index zero = 2 ^ 64 - 1
last_index (suc n) = n

-- `SDL_clamp(i, 0, size - 1)`
abbrev pub clamp_index : ℕ → ℤ → ℕ
clamp_index size (negsuc i) = 0
clamp_index size (pos i) = if ltb (last_index size) i then last_index size else i

abbrev pub step_up : ℤ → ℤ
step_up (pos i) = pos (suc i)
step_up (negsuc zero) = pos 0
step_up (negsuc (suc i)) = negsuc i

abbrev pub step_down : ℤ → ℤ
step_down (pos zero) = negsuc 0
step_down (pos (suc i)) = pos i
step_down (negsuc i) = negsuc (suc i)

abbrev pub element : Option (List ℕ) → Result (Option (List ℕ))
element none = fault Fault.out_of_bounds
element (some s) = ok (some s)

-- `int index = m_history.size() - 1 - m_curHistoryIndex;`, with the test of the index that follows:
-- in an empty history the difference is that of `size_t`, and the index comes out as -1.
abbrev pub recalled : List (List ℕ) → ℕ → Result (Option (List ℕ))
recalled h i =
    let index = (last_index (length h) - i) % 2 ^ 32 in
    if ltb index (2 ^ 31) && leb index (last_index (length h))
    then element (get_elem? h index)
    else ok none

abbrev pub show : Option (List ℕ) → Console → Console
show none c = c
show (some s) c = record c { str = s }

unfoldable pub browse : ℤ → Console → Result Console
browse i c = do
  let j = clamp_index (length c.history) i
  s ← recalled c.history j
  ok (show s (record c { cur_history_index = pos j }))

-- `Update()`, without the drawing.
abbrev pub browsed : Keys → Console → Result Console
browsed k c =
    if k.up
    then browse (step_up c.cur_history_index) c
    else (if k.down then browse (step_down c.cur_history_index) c else ok c)

unfoldable pub update : Keys → Console → Game → Result (Console × Game)
update k c g =
    let d = if k.enter then toggle c g else (c, g) in
    if d.0.active then (browsed k (scroll k d.0) >>= λ e. ok (e, d.1)) else ok d
