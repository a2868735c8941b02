-- ===== src/Tests/Inputs.antt =====
-- A frame in which a key goes up, one goes down and text is typed.
use necroauth.Prelude.{◌≡◌, refl, false, List, [], ◌∷◌, some, none, ok, pos, arith}
use necroauth.Input.{Input, Effects, Event, text_input, key_down, backspace, State, handle}
use necroauth.Input.Keyboard.{Says, handle-Says}

abbrev input : Input
input = record {
  mouse = (pos 0, pos 0);
  old_mouse = (pos 0, pos 0);
  mouse_buttons = 0 ∷ 0 ∷ 0 ∷ [];
  prev_mouse_buttons = 0 ∷ 0 ∷ 0 ∷ [];
  mouse_scroll = pos 0;
  mouse_motion = (pos 0, pos 0);
  keys = 1 ∷ 0 ∷ 1 ∷ [];
  prev_keys = 0 ∷ 0 ∷ 0 ∷ [];
  num_keys = 3;
  cur_input_field = some (record { str = []; text_limit = pos 2 });
}

abbrev no_effects : Effects
no_effects = record { stopped = false; clipboard = none; exported = false }

abbrev typing : List Event
typing = text_input (b'a' ∷ b'b' ∷ []) ∷ key_down backspace false [] ∷ []

abbrev state : State
state = record { mouse = (pos 3, pos 4); mouse_mask = 1; keyboard = 0 ∷ 1 ∷ 1 ∷ [] }

handle-Says_example :
    (j : Input) × (e : Effects) × (handle typing state (input, no_effects) ≡ ok (j, e))
    × Says 3 (1 ∷ 0 ∷ 1 ∷ []) (0 ∷ 1 ∷ 1 ∷ []) j
handle-Says_example =
    handle-Says typing state input no_effects refl refl
      (omega arith, (omega arith, (omega arith, tt)))
      (omega arith, (omega arith, (omega arith, tt)))
