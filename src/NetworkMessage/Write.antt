-- ===== src/NetworkMessage/Write.antt =====
-- `NetworkMessage::Write`, in its three phases: make room, copy, advance.
use necroauth.Prelude.{
  ℕ, ◌+◌, ◌*◌, ◌-◌, ◌≤◌, ◌<◌, ◌^◌, ◌≡◌, inl, inr, refl, ap, ap₂, ◌∙◌, List, [], ◌∷◌, ◌++◌, suc,
  lt→ltb, if◌then◌else◌, length, arith, ok, Bool-cases, ltb, add_size, resize, write_at, slice,
  slice-add, slice-write_at, slice-write_at_before, slice-resize, length-write_at, length-resize,
  append-nil,
}
use mathlib.Core.Path.{subst}
use necroauth.NetworkMessage.{
  NetworkMessage, get_remaining_space, make_room, grown_size, append_at_wpos, write, store_at,
  write_completed,
}
use necroauth.NetworkMessage.Contents.{IsValid, contents, sizes, compact_data-Compacted}

-- A valid message whose unread bytes are these.
pub record Shows (bs : List ℕ) (m : NetworkMessage) : Type 0 where
  pub valid : IsValid m
  pub unread : contents m ≡ bs

-- Bytes put at the write position follow the unread ones.
pub contents-extend :
    (bytes : List ℕ) (r w n : ℕ) (xs : List ℕ)
    → r ≤ w
    → w + length xs ≤ length bytes
    → n ≡ w + length xs
    → slice (write_at bytes w xs) r (n - r) ≡ slice bytes r (w - r) ++ xs
contents-extend bytes r w n xs h k e =
    ap (slice new r) (omega arith)
    ∙ slice-add new r (w - r) (length xs)
    ∙ ap₂ ◌++◌ (slice-write_at_before bytes w xs r (w - r) (omega arith) (omega arith))
        (ap (λ p. slice new p (length xs)) at_w ∙ slice-write_at bytes w xs (omega arith))
  where
    new : List ℕ
    new = write_at bytes w xs

    at_w : r + (w - r) ≡ w
    at_w = omega arith

unfoldable pub appended : NetworkMessage → List ℕ → NetworkMessage
appended m xs = record m { bytes = write_at m.bytes m.wpos xs; wpos = add_size m.wpos (length xs) }

pub append_at_wpos_lem :
    (m : NetworkMessage) (xs : List ℕ)
    → m.wpos + length xs ≤ length m.bytes
    → append_at_wpos m xs ≡ ok (appended m xs)
unfolding append_at_wpos appended store_at write_completed
append_at_wpos_lem m xs h = ground arith

pub length-appended :
    (m : NetworkMessage) (xs : List ℕ)
    → m.wpos + length xs ≤ length m.bytes
    → length (appended m xs).bytes ≡ length m.bytes
unfolding appended
length-appended m xs h = length-write_at m.bytes m.wpos xs h

pub appended-Shows :
    {bs : List ℕ} {m : NetworkMessage} (xs : List ℕ)
    → Shows bs m
    → m.wpos + length xs ≤ length m.bytes
    → Shows (bs ++ xs) (appended m xs)
unfolding appended contents
appended-Shows {bs} {m} xs s h = record {
  valid = omega (arith, kept, s.valid);
  unread =
      contents-extend m.bytes m.rpos m.wpos (add_size m.wpos (length xs)) xs s.valid.ordered h
        (omega (arith, s.valid))
      ∙ ap (λ l. l ++ xs) s.unread;
}
  where
    kept : length (write_at m.bytes m.wpos xs) ≡ length m.bytes
    kept = length-write_at m.bytes m.wpos xs h

-- Room for `n` more bytes behind the write position, in a vector that has at most doubled.
record Roomy (bs : List ℕ) (n old : ℕ) (c : NetworkMessage) : Type 0 where
  shows : Shows bs c
  room : c.wpos + n ≤ length c.bytes
  bound : length c.bytes ≤ 2 * (old + n)

enlarged : NetworkMessage → ℕ → NetworkMessage
enlarged c n = record c { bytes = resize (grown_size (length c.bytes) n) c.bytes }

enlarged-Roomy :
    {bs : List ℕ} {c : NetworkMessage} (n : ℕ)
    → Shows bs c
    → length c.bytes + n < 2 ^ 62
    → Roomy bs n (length c.bytes) (enlarged c n)
unfolding enlarged contents
enlarged-Roomy {bs} {c} n s h = record {
  shows = record {
    valid = omega (arith, len, s.valid);
    unread =
        slice-resize c.bytes (grown_size (length c.bytes) n) c.rpos (c.wpos - c.rpos)
          (omega (arith, s.valid)) (omega arith)
        ∙ s.unread;
  };
  room = omega (arith, len, s.valid);
  bound = omega (arith, len);
}
  where
    len : length (resize (grown_size (length c.bytes) n) c.bytes) ≡ grown_size (length c.bytes) n
    len = length-resize (grown_size (length c.bytes) n) c.bytes

make_room-Roomy :
    {bs : List ℕ} {m : NetworkMessage} (n : ℕ)
    → Shows bs m
    → length m.bytes + n < 2 ^ 62
    → (c : NetworkMessage) × (make_room m n ≡ ok c) × Roomy bs n (length m.bytes) c
unfolding make_room enlarged
make_room-Roomy {bs} {m} n s h =
    let (c, e, k) = compact_data-Compacted s.valid in
    let t : Shows bs c = record { valid = k.valid; unread = k.same ∙ s.unread } in
    elim (Bool-cases (ltb (get_remaining_space c) n)) [
      | inl short ↦ (
        enlarged c n,
        rw (e, short),
        subst (λ l. Roomy bs n l (enlarged c n)) k.room
            (enlarged-Roomy n t (omega (arith, k.room))),
      )
      | inr fits ↦ (
        c,
        rw (e, fits),
        record {
          shows = t;
          room = ground (arith, (sizes k.valid).1, k.valid);
          bound = omega (arith, k.room);
        },
      )
    ]

-- The same, with a bound on the vector: it at most doubles, counting what is written.
pub write-Grows :
    {bs : List ℕ} {m : NetworkMessage} (xs : List ℕ)
    → Shows bs m
    → length m.bytes + length xs < 2 ^ 62
    → (n : NetworkMessage) × (write m xs ≡ ok n)
      × Shows (bs ++ xs) n
      × (length n.bytes ≤ 2 * (length m.bytes + length xs))
unfolding write
write-Grows {bs} {m} [] s h = (m, refl, rw append-nil s, omega arith)
write-Grows {bs} {m} (x ∷ xs) s h =
    let (c, e, k) = room in
    (
      appended c (x ∷ xs),
      rw (lt→ltb 0 (suc (length xs)) (omega arith), e) (append_at_wpos_lem c (x ∷ xs) k.room),
      appended-Shows (x ∷ xs) k.shows k.room,
      omega (arith, length-appended c (x ∷ xs) k.room, k.bound),
    )
  where
    n : ℕ
    n = suc (length xs)

    room :
        (c : NetworkMessage) × ((if ltb (get_remaining_space m) n then make_room m n else ok m)
          ≡ ok c)
        × Roomy bs n (length m.bytes) c
    room = elim (Bool-cases (ltb (get_remaining_space m) n)) [
      | inl short ↦ rw short (make_room-Roomy n s h)
      | inr fits ↦ (
        m,
        rw fits,
        record {
          shows = s;
          room = ground (arith, (sizes s.valid).1, s.valid);
          bound = omega arith;
        },
      )
    ]

-- Writing to a valid message succeeds, whether it has to compact or to grow, and puts the bytes
-- behind the unread ones, as long as the sizes stay below 2^62.
pub write-Shows :
    {bs : List ℕ} {m : NetworkMessage} (xs : List ℕ)
    → Shows bs m
    → length m.bytes + length xs < 2 ^ 62
    → (n : NetworkMessage) × (write m xs ≡ ok n) × Shows (bs ++ xs) n
write-Shows xs s h = let (n, e, shows, _) = write-Grows xs s h in (n, e, shows)
