-- ===== src/Input/Keyboard.antt =====
-- `Input`: what the key queries say after a frame.
use Prim.Native.Nat.{bit_and}
use necroauth.Prelude.{
  ℕ, zero, suc, ◌+◌, ◌-◌, ◌==◌, ◌≤◌, ◌<◌, ◌≡◌, refl, sym, ap, ◌∙◌, true, false, if◌then◌else◌, ltb,
  leb, le→leb, le→ltb, List, [], ◌∷◌, ◌++◌, length, take, take_all, drop_all, append-nil, get_or,
  ok, fault, Fault, pos, negsuc, write_at, arith,
}
use mathlib.Core.Path.{subst}
use necroauth.Input.{
  Input, Effects, Event, State, quit, wheel, motion, text_input, key_down, on_event, on_events,
  snapshot, copied, handle, key_at, get_key_held, get_key_down, get_key_up,
}

abbrev pub AreBits : List ℕ → Type 0
AreBits [] = Unit {0}
AreBits (b ∷ bs) = (b ≤ 1) × AreBits bs

get_or-le : (bs : List ℕ) (k : ℕ) → AreBits bs → get_or bs k 0 ≤ 1
get_or-le [] k h = omega arith
get_or-le (b ∷ bs) zero h = h.0
get_or-le (b ∷ bs) (suc k) h = get_or-le bs k h.1

key_at-get_or : (bs : List ℕ) (k : ℕ) → k < length bs → key_at bs k ≡ ok (get_or bs k 0)
unfolding key_at
key_at-get_or [] k h = absurd (omega arith)
key_at-get_or (b ∷ bs) zero h = refl
key_at-get_or (b ∷ bs) (suc k) h = key_at-get_or bs k (omega arith)

key_at-length : (bs : List ℕ) → key_at bs (length bs) ≡ fault Fault.out_of_bounds
unfolding key_at
key_at-length [] = refl
key_at-length (b ∷ bs) = key_at-length bs

-- The two queries on single bits.
down_bit : (b a : ℕ) → b ≤ 1 → a ≤ 1 → b - bit_and b a ≡ b - a
down_bit zero a h k = omega arith
down_bit (suc zero) zero h k = refl
down_bit (suc zero) (suc zero) h k = refl
down_bit (suc zero) (suc (suc a)) h k = absurd (omega arith)
down_bit (suc (suc b)) a h k = absurd (omega arith)

up_bit : (b a : ℕ) → b ≤ 1 → a ≤ 1 → bit_and (if b == 0 then 1 else 0) a ≡ a - b
up_bit zero zero h k = refl
up_bit zero (suc zero) h k = refl
up_bit zero (suc (suc a)) h k = absurd (omega arith)
up_bit (suc zero) zero h k = refl
up_bit (suc zero) (suc zero) h k = refl
up_bit (suc zero) (suc (suc a)) h k = absurd (omega arith)
up_bit (suc (suc b)) a h k = absurd (omega arith)

-- The events of a frame leave the keyboard alone.
record SameKeys (i j : Input) : Type 0 where
  keys : j.keys ≡ i.keys
  prev_keys : j.prev_keys ≡ i.prev_keys

on_event-SameKeys : (ev : Event) (i : Input) (e : Effects) → SameKeys i (on_event ev (i, e)).0
unfolding on_event
on_event-SameKeys quit i e = record { keys = refl; prev_keys = refl }
on_event-SameKeys (wheel y) i e = record { keys = refl; prev_keys = refl }
on_event-SameKeys (motion m) i e = record { keys = refl; prev_keys = refl }
on_event-SameKeys (text_input text) i e = record { keys = refl; prev_keys = refl }
on_event-SameKeys (key_down key ctrl board) i e = record { keys = refl; prev_keys = refl }

on_events-SameKeys :
    (evs : List Event) (i : Input) (e : Effects) → SameKeys i (on_events evs (i, e)).0
unfolding on_events
on_events-SameKeys [] i e = record { keys = refl; prev_keys = refl }
on_events-SameKeys (ev ∷ evs) i e =
    let one = on_event-SameKeys ev i e in
    let (j, e') = on_event ev (i, e) in
    let rest = on_events-SameKeys evs j e' in
    record { keys = rest.keys ∙ one.keys; prev_keys = rest.prev_keys ∙ one.prev_keys }

write_all : (buf xs : List ℕ) → length xs ≡ length buf → write_at buf 0 xs ≡ xs
unfolding write_at
write_all buf xs e = ap (◌++◌ xs) (drop_all (0 + length xs) buf (omega arith)) ∙ append-nil xs

-- The keyboard of a frame and of the one before, of so many keys.
pub record Frames (n : ℕ) (before now : List ℕ) (i : Input) : Type 0 where
  pub count : i.num_keys ≡ n
  pub keys : i.keys ≡ now
  pub prev_keys : i.prev_keys ≡ before

snapshot-Frames :
    (s : State) (i : Input)
    → length s.keyboard ≡ length i.keys
    → length i.prev_keys ≡ length i.keys
    → (j : Input) × (snapshot s i ≡ ok j) × Frames (length i.keys) i.keys s.keyboard j
unfolding snapshot
snapshot-Frames s i e f =
    let fits : leb (length s.keyboard) (length i.keys) ≡ true = le→leb _ _ (omega arith) in
    let whole : take (length s.keyboard) i.keys ≡ i.keys =
      take_all (length s.keyboard) i.keys (omega arith) in
    (
      copied s i,
      rw fits refl,
      record {
        count = e;
        keys = write_all i.keys s.keyboard e;
        prev_keys = ap (write_at i.prev_keys 0) whole ∙ write_all i.prev_keys i.keys (sym f);
      },
    )

-- What the queries say of each key, and of the first number that is no key.
pub record Says (n : ℕ) (before now : List ℕ) (i : Input) : Type 0 where
  pub held : (k : ℕ) → k < n → get_key_held i (pos k) ≡ ok (pos (get_or now k 0))
  pub down :
      (k : ℕ) → k < n → get_key_down i (pos k) ≡ ok (pos (get_or now k 0 - get_or before k 0))
  pub up : (k : ℕ) → k < n → get_key_up i (pos k) ≡ ok (pos (get_or before k 0 - get_or now k 0))
  pub held_behind : get_key_held i (pos n) ≡ fault Fault.out_of_bounds
  pub down_behind : get_key_down i (pos n) ≡ fault Fault.out_of_bounds
  pub up_behind : get_key_up i (pos n) ≡ ok (negsuc 0)

Frames-Says :
    (n : ℕ) (before now : List ℕ) (i : Input)
    → Frames n before now i
    → length before ≡ n
    → length now ≡ n
    → AreBits before
    → AreBits now
    → Says n before now i
unfolding get_key_held get_key_down get_key_up
Frames-Says n before now i f lb ln bb bn = record {
  held = λ k h. rw (is_key k (omega arith)) (rw (now_at k h) refl);
  down = λ k h. rw (is_key k (omega arith)) (
      rw (now_at k h, before_at k h)
        (ap (λ m. ok (pos m))
          (down_bit (get_or now k 0) (get_or before k 0) (get_or-le now k bn)
            (get_or-le before k bb))));
  up = λ k h. rw (is_not_behind k h) (
      rw (now_at k h, before_at k h)
        (ap (λ m. ok (pos m))
          (up_bit (get_or now k 0) (get_or before k 0) (get_or-le now k bn)
            (get_or-le before k bb))));
  held_behind = rw (is_key n (omega arith)) (rw behind refl);
  down_behind = rw (is_key n (omega arith)) (rw behind refl);
  up_behind = rw (le→leb i.num_keys n (omega (arith, f.count))) refl;
}
  where
    now_at : (k : ℕ) → k < n → key_at i.keys k ≡ ok (get_or now k 0)
    now_at k h = ap (λ l. key_at l k) f.keys ∙ key_at-get_or now k (omega arith)

    before_at : (k : ℕ) → k < n → key_at i.prev_keys k ≡ ok (get_or before k 0)
    before_at k h = ap (λ l. key_at l k) f.prev_keys ∙ key_at-get_or before k (omega arith)

    behind : key_at i.keys n ≡ fault Fault.out_of_bounds
    behind =
        ap (key_at i.keys) (sym ln) ∙ ap (λ l. key_at l (length now)) f.keys ∙ key_at-length now

    is_key : (k : ℕ) → k ≤ n → ltb i.num_keys k ≡ false
    is_key k h = le→ltb _ _ (omega (arith, f.count))

    is_not_behind : (k : ℕ) → k < n → leb i.num_keys k ≡ false
    is_not_behind k h = ground (arith, f.count)

-- After a frame, whatever its events, with as many keys as before, each up or down:
-- `GetKeyHeld` tells of each key whether it is down now, `GetKeyDown` whether it is and was not in
-- the frame before, `GetKeyUp` whether it was and is not. The first number that is no key passes the
-- tests of `GetKeyHeld` and `GetKeyDown`, which then read outside of the array; `GetKeyUp` refuses
-- it by -1.
pub handle-Says :
    (evs : List Event) (s : State) (i : Input) (e : Effects)
    → length s.keyboard ≡ length i.keys
    → length i.prev_keys ≡ length i.keys
    → AreBits i.keys
    → AreBits s.keyboard
    → (j : Input) × (e' : Effects) × (handle evs s (i, e) ≡ ok (j, e'))
      × Says (length i.keys) i.keys s.keyboard j
unfolding handle
handle-Says evs s i e same prev before now =
    let fresh : Input = record i { mouse_scroll = pos 0 } in
    let k = on_events-SameKeys evs fresh e in
    let (m, e') = on_events evs (fresh, e) in
    let (j, taken, frames) =
      snapshot-Frames s m (same ∙ sym (ap length k.keys))
        (ap length k.prev_keys ∙ prev ∙ sym (ap length k.keys)) in
    (
      j,
      e',
      rw taken refl,
      subst (λ l. Says (length l) l s.keyboard j) k.keys
          (Frames-Says (length m.keys) m.keys s.keyboard j frames refl
            (same ∙ sym (ap length k.keys)) (subst AreBits (sym k.keys) before) now),
    )
