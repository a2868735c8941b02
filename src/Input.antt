-- ===== src/Input.antt =====
-- NECROClient/Engine/Input/Input.cpp: the keyboard and the mouse, frame by frame, and typing into the
-- input field. What SDL reports comes from outside.
pub mod Keyboard
use Prim.Native.Nat.{bit_and}
use necroauth.Prelude.{
  ℕ, zero, suc, ◌+◌, ◌-◌, ◌==◌, ◌||◌, Bool, true, false, if◌then◌else◌, ltb, leb, List, [], ◌∷◌,
  ◌++◌, length, take, drop, get_elem?, Option, none, some, Result, ok, fault, Fault, ◌>>=◌, ℤ, pos,
  negsuc, write_at,
}

-- `InputField`: its text and its limit.
pub record InputField : Type 0 where
  pub str : List ℕ
  pub text_limit : ℤ

pub record Input : Type 0 where
  pub mouse : ℤ × ℤ
  pub old_mouse : ℤ × ℤ
  pub mouse_buttons : List ℕ
  pub prev_mouse_buttons : List ℕ
  pub mouse_scroll : ℤ
  pub mouse_motion : ℤ × ℤ
  pub keys : List ℕ
  pub prev_keys : List ℕ
  pub num_keys : ℕ
  pub cur_input_field : Option InputField

-- What happens outside: the engine's stop, the clipboard, the picture of the frame.
pub record Effects : Type 0 where
  pub stopped : Bool
  pub clipboard : Option (List ℕ)
  pub exported : Bool

pub data Key : Type 0 where
  backspace c v f12 other : Key

-- `SDL_Event`. A key comes with whether CTRL is down and what the clipboard holds.
pub data Event : Type 0 where
  quit : Event
  wheel : ℤ → Event
  motion : ℤ × ℤ → Event
  text_input : List ℕ → Event
  key_down : Key → Bool → List ℕ → Event

-- `GetTextLimit() == 0 || m_str.size() < GetTextLimit()`: the limit is converted to an unsigned one.
abbrev has_room : InputField → Bool
has_room f = elim f.text_limit [ pos n ↦ n == 0 || ltb (length f.str) n | negsuc n ↦ true ]

unfoldable pub take_text : List ℕ → InputField → InputField
take_text text f = if has_room f then record f { str = f.str ++ text } else f

abbrev pub pop_back : List ℕ → List ℕ
pop_back [] = []
pop_back (b ∷ []) = []
pop_back (b ∷ (d ∷ bs)) = b ∷ pop_back (d ∷ bs)

-- A key, while the field is the current one.
unfoldable pub edited : Key → Bool → List ℕ → InputField × Effects → InputField × Effects
edited backspace ctrl board (f, e) = (record f { str = pop_back f.str }, e)
edited c ctrl board (f, e) = if ctrl then (f, record e { clipboard = some f.str }) else (f, e)
edited v ctrl board (f, e) = if ctrl then (record f { str = board }, e) else (f, e)
edited f12 ctrl board (f, e) = (f, e)
edited other ctrl board (f, e) = (f, e)

abbrev is_f12 : Key → Bool
is_f12 f12 = true
is_f12 _ = false

abbrev in_field :
    (InputField × Effects → InputField × Effects)
    → Option InputField
    → Effects
    → Option InputField × Effects
in_field change none e = (none, e)
in_field change (some f) e = let (g, e') = change (f, e) in (some g, e')

-- The body of the loop over the events.
unfoldable pub on_event : Event → Input × Effects → Input × Effects
unfolding take_text edited
on_event quit (i, e) = (i, record e { stopped = true })
on_event (wheel y) (i, e) = (record i { mouse_scroll = y }, e)
on_event (motion m) (i, e) = (record i { mouse_motion = m }, e)
on_event (text_input text) (i, e) =
    let (f, e') = in_field (λ p. (take_text text p.0, p.1)) i.cur_input_field e in
    (record i { cur_input_field = f }, e')
on_event (key_down key ctrl board) (i, e) =
    let (f, e') = in_field (edited key ctrl board) i.cur_input_field e in
    (record i { cur_input_field = f }, if is_f12 key then record e' { exported = true } else e')

unfoldable pub on_events : List Event → Input × Effects → Input × Effects
on_events [] p = p
on_events (ev ∷ evs) p = on_events evs (on_event ev p)

-- What `SDL_GetMouseState` and `SDL_GetKeyboardState` report at the end of a frame.
pub record State : Type 0 where
  pub mouse : ℤ × ℤ
  pub mouse_mask : ℕ
  pub keyboard : List ℕ

-- `mouseState & SDL_BUTTON(i)`
abbrev pub buttons : ℕ → List ℕ
buttons mask = bit_and mask 1 ∷ bit_and mask 2 ∷ bit_and mask 4 ∷ []

-- The rest of `Handle()`, with both `memcpy`.
abbrev pub copied : State → Input → Input
copied s i = record i {
  old_mouse = i.mouse;
  mouse = s.mouse;
  num_keys = length s.keyboard;
  prev_keys = write_at i.prev_keys 0 (take (length s.keyboard) i.keys);
  keys = write_at i.keys 0 s.keyboard;
  prev_mouse_buttons = i.mouse_buttons;
  mouse_buttons = buttons s.mouse_mask;
}

unfoldable pub snapshot : State → Input → Result Input
snapshot s i =
    if leb (length s.keyboard) (length i.keys) then ok (copied s i) else fault Fault.out_of_bounds

-- `Handle()`
unfoldable pub handle : List Event → State → Input × Effects → Result (Input × Effects)
unfolding snapshot on_events
handle evs s (i, e) =
    let (j, e') = on_events evs (record i { mouse_scroll = pos 0 }, e) in
    snapshot s j >>= λ k. ok (k, e')

-- `m_keys[key]`
unfoldable pub key_at : List ℕ → ℕ → Result ℕ
key_at keys k = elim (get_elem? keys k) [ none ↦ fault Fault.out_of_bounds | some b ↦ ok b ]

-- `GetKeyHeld`, which lets the number of keys through as a key.
unfoldable pub get_key_held : Input → ℤ → Result ℤ
get_key_held i (negsuc k) = ok (negsuc 0)
get_key_held i (pos k) =
    if ltb i.num_keys k then ok (negsuc 0) else (key_at i.keys k >>= λ b. ok (pos b))

-- `GetKeyDown`: `m_keys[key] & ~m_prevKeys[key]`
unfoldable pub get_key_down : Input → ℤ → Result ℤ
get_key_down i (negsuc k) = ok (negsuc 0)
get_key_down i (pos k) =
    if ltb i.num_keys k
    then ok (negsuc 0)
    else (key_at i.keys k >>= λ b. key_at i.prev_keys k >>= λ a. ok (pos (b - bit_and b a)))

-- `GetKeyUp`: `!m_keys[key] & m_prevKeys[key]`
unfoldable pub get_key_up : Input → ℤ → Result ℤ
get_key_up i (negsuc k) = ok (negsuc 0)
get_key_up i (pos k) =
    if leb i.num_keys k
    then ok (negsuc 0)
    else (key_at i.keys k >>= λ b.
        key_at i.prev_keys k >>= λ a. ok (pos (bit_and (if b == 0 then 1 else 0) a)))
