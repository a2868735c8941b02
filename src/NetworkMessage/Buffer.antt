-- ===== src/NetworkMessage/Buffer.antt =====
-- A message as the in-buffer of a socket: consuming, filling behind the write position, growing.
use necroauth.Prelude.{
  ℕ, ◌+◌, ◌-◌, ◌/◌, ◌≤◌, ◌<◌, ◌^◌, ◌≡◌, inl, inr, ap, ◌∙◌, List, ◌++◌, length, arith, ok, ◌>>=◌,
  Bool-cases, ◌==◌, add_size, resize, sym, refl, slice, slice-resize, slice-slice, le→leb,
  drop-slice, length-resize, drop,
}
use necroauth.NetworkMessage.{
  NetworkMessage, get_active_size, get_remaining_space, read_completed, store_at, read_at,
  write_completed, enlarge_buffer_if_needed, clear, append_at_wpos,
}
use necroauth.NetworkMessage.Contents.{IsValid, contents, sizes}
use necroauth.NetworkMessage.Write.{
  Shows, appended, append_at_wpos_lem, appended-Shows, length-appended,
}

-- The active size of a valid message is the number of its unread bytes.
pub active_size-Shows :
    {bs : List ℕ} {m : NetworkMessage} → Shows bs m → get_active_size m ≡ length bs
active_size-Shows s = omega (arith, sizes s.valid, ap {B = ℕ} length s.unread)

-- Consuming `n` of the unread bytes leaves the others.
pub read_completed-Shows :
    {bs : List ℕ} {m : NetworkMessage} (n : ℕ)
    → Shows bs m
    → n ≤ length bs
    → Shows (drop n bs) (read_completed m n)
unfolding read_completed contents
read_completed-Shows {bs} {m} n s h = record {
  valid = omega (arith, s.valid, k);
  unread =
      ap (λ p. slice m.bytes p (m.wpos - p)) at
      ∙ sym (drop-slice m.bytes m.rpos n (m.wpos - (m.rpos + n)))
      ∙ ap (λ l. drop n (slice m.bytes m.rpos l)) rest
      ∙ ap (drop n) s.unread;
}
  where
    k : n ≤ m.wpos - m.rpos
    k = omega (arith, h, sizes s.valid, ap {B = ℕ} length s.unread)

    at : add_size m.rpos n ≡ m.rpos + n
    at = omega (arith, s.valid, k)

    rest : n + (m.wpos - (m.rpos + n)) ≡ m.wpos - m.rpos
    rest = omega (arith, k)

-- Bytes that the system puts at the write pointer, within the space that it was told of, follow
-- the unread ones.
pub filled-Shows :
    {bs : List ℕ} {m : NetworkMessage} (xs : List ℕ)
    → Shows bs m
    → length xs ≤ get_remaining_space m
    → (n : NetworkMessage) × ((store_at m m.wpos xs >>= λ s. ok (write_completed s (length xs)))
        ≡ ok n)
      × Shows (bs ++ xs) n
      × (length n.bytes ≡ length m.bytes)
unfolding append_at_wpos
filled-Shows {bs} {m} xs s h = (
  appended m xs,
  append_at_wpos_lem m xs room,
  appended-Shows xs s room,
  length-appended m xs room,
)
  where
    room : m.wpos + length xs ≤ length m.bytes
    room = omega (arith, sizes s.valid, s.valid)

-- Growing keeps the unread bytes.
pub enlarge-Shows :
    {bs : List ℕ} {m : NetworkMessage}
    → Shows bs m
    → length m.bytes < 2 ^ 62
    → Shows bs (enlarge_buffer_if_needed m)
unfolding enlarge_buffer_if_needed contents
enlarge-Shows {bs} {m} s h = elim (Bool-cases (get_remaining_space m == 0)) [
  | inr room ↦ rw room s
  | inl full ↦ rw full (record {
    valid = omega (arith, s.valid, len);
    unread =
        slice-resize m.bytes n m.rpos (m.wpos - m.rpos) (omega (arith, s.valid)) (omega arith)
        ∙ s.unread;
  })
]
  where
    n : ℕ
    n = add_size (length m.bytes) (length m.bytes / 2)

    len : length (resize n m.bytes) ≡ n
    len = length-resize n m.bytes

-- A valid buffer of at least two bytes, and fewer than 2^62, has room after growing.
pub enlarge_room :
    {m : NetworkMessage}
    → IsValid m
    → 2 ≤ length m.bytes
    → length m.bytes < 2 ^ 62
    → 0 < get_remaining_space (enlarge_buffer_if_needed m)
unfolding enlarge_buffer_if_needed
enlarge_room {m} v h k =
    ground (arith, length-resize (add_size (length m.bytes) (length m.bytes / 2)) m.bytes)

-- A cleared buffer has no room, and growing it by half of its size gives it none.
pub enlarge-clear :
    (m : NetworkMessage) → get_remaining_space (enlarge_buffer_if_needed (clear m)) ≡ 0
unfolding enlarge_buffer_if_needed clear resize
enlarge-clear m = refl

-- A read at an offset from the read pointer, within the unread bytes, finds those bytes.
pub read_at-Shows :
    {bs : List ℕ} {m : NetworkMessage} (q n : ℕ)
    → Shows bs m
    → q + n ≤ length bs
    → read_at m (m.rpos + q) n ≡ ok (slice bs q n)
unfolding read_at contents
read_at-Shows {bs} {m} q n s h =
    rw (le→leb (m.rpos + q + n) (length m.bytes) (omega (arith, s.valid, inside))) (
      ap ok (
        sym (slice-slice m.bytes m.rpos (m.wpos - m.rpos) q n (omega (arith, inside)))
        ∙ ap (λ l. slice l q n) s.unread))
  where
    inside : q + n ≤ m.wpos - m.rpos
    inside = omega (arith, sizes s.valid, ap {B = ℕ} length s.unread)
