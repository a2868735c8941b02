-- ===== src/Socket/Idle.antt =====
-- A socket that waits: nothing unread, room for a packet. What `Receive` then hands to the callback.
use necroauth.Prelude.{
  ℕ, ◌+◌, ◌≤◌, ◌<◌, ◌^◌, ◌≡◌, false, List, [], drop_all, length, ok, ◌>>=◌, >>=-eq-ok, pos, arith,
  not, ◌&&◌, ◌∙◌, ap,
}
use mathlib.Core.Path.{subst}
use necroauth.NetworkMessage.Buffer.{read_completed-Shows}
use necroauth.NetworkMessage.{
  read_completed, NetworkMessage, get_remaining_space, store_at, enlarge_buffer_if_needed,
  append_at_wpos,
}
use necroauth.NetworkMessage.Contents.{compact_data-Compacted, sizes}
use necroauth.NetworkMessage.Write.{
  Shows, appended, append_at_wpos_lem, appended-Shows, length-appended,
}
use necroauth.Socket.{Socket, got, Derived, receive, make_ready, store_received}
use necroauth.Socket.Receive.{receive_ready-got, is_open-closed}

-- Open, with the TLS object if it uses TLS, nothing unread, and at least 64 bytes of buffer.
pub record IsIdle (b : Socket) : Type 0 where
  pub opened : b.closed ≡ false
  pub live : (b.uses_tls && not b.ssl) ≡ false
  pub nothing : Shows [] b.in_buffer
  pub large : 64 ≤ length b.in_buffer.bytes
  pub small : length b.in_buffer.bytes < 2 ^ 62

-- The buffer holds these bytes, from its start, in a vector as long as before.
pub record Loaded (xs : List ℕ) (old m : NetworkMessage) : Type 0 where
  pub shows : Shows xs m
  pub at_front : m.rpos ≡ 0
  pub same : length m.bytes ≡ length old.bytes

roomy-kept : (m : NetworkMessage) → 64 ≤ get_remaining_space m → enlarge_buffer_if_needed m ≡ m
unfolding enlarge_buffer_if_needed
roomy-kept m h = ground arith

make_ready-IsIdle :
    {b : Socket}
    → IsIdle b
    → (m : NetworkMessage) × (make_ready b ≡ ok (record b { in_buffer = m }))
      × Loaded [] b.in_buffer m
      × (64 ≤ get_remaining_space m)
unfolding make_ready
make_ready-IsIdle {b} h =
    let (c, e, k) = compact_data-Compacted h.nothing.valid in
    let room : 64 ≤ get_remaining_space c = omega (
      arith,
      k.end,
      k.room,
      h.large,
      h.small,
      sizes h.nothing.valid,
      sizes k.valid,
      ap {B = ℕ} length h.nothing.unread,
    ) in
    (
      c,
      rw (e, roomy-kept c room),
      record {
        shows = record { valid = k.valid; unread = k.same ∙ h.nothing.unread };
        at_front = k.at_front;
        same = k.room;
      },
      room,
    )

store_received-Loaded :
    {old : NetworkMessage} {b : Socket} (xs : List ℕ)
    → Loaded [] old b.in_buffer
    → length xs ≤ get_remaining_space b.in_buffer
    → (m : NetworkMessage) × (store_received b xs ≡ ok (record b { in_buffer = m }))
      × Loaded xs old m
unfolding store_received append_at_wpos appended
store_received-Loaded {old} {b} xs l fits =
    let room : b.in_buffer.wpos + length xs ≤ length b.in_buffer.bytes =
      omega (arith, sizes l.shows.valid, l.shows.valid) in
    let e = append_at_wpos_lem b.in_buffer xs room in
    let (a, stored, whole) = >>=-eq-ok (store_at b.in_buffer b.in_buffer.wpos xs) _ e in
    (
      appended b.in_buffer xs,
      rw stored (ap (λ r. r >>= λ m. ok (record b { in_buffer = m })) whole),
      record {
        shows = appended-Shows xs l.shows room;
        at_front = l.at_front;
        same = length-appended b.in_buffer xs room ∙ l.same;
      },
    )

-- Consuming all that was loaded makes the socket idle again.
pub read_completed-IsIdle :
    {bs : List ℕ} {b : Socket} (m : NetworkMessage) (n : ℕ)
    → IsIdle b
    → Loaded bs b.in_buffer m
    → n ≡ length bs
    → IsIdle (record b { in_buffer = read_completed m n })
unfolding read_completed
read_completed-IsIdle {bs} m n h l e = record {
  opened = h.opened;
  live = h.live;
  nothing =
      subst (λ k. Shows k (read_completed m n)) (drop_all n bs (omega arith))
        (read_completed-Shows n l.shows (omega arith));
  large = omega (arith, l.same, h.large);
  small = omega (arith, l.same, h.small);
}

module _ {S : Type 0} (c : Derived S) where
  open c use {base, with_base, read_callback}

  -- An idle socket hands what it receives to the callback, and nothing else.
  pub receive-Loaded :
      (s : S) (xs : List ℕ)
      → IsIdle (base s)
      → length xs ≤ 64
      → (m : NetworkMessage) × Loaded xs (base s).in_buffer m
        × (receive c s (got xs) ≡ (
            read_callback (with_base s (record (base s) { in_buffer = m })) >>= λ s'.
            ok (s', pos (length xs))))
  unfolding receive
  receive-Loaded s xs h fits =
      let (m, e, k, room) = make_ready-IsIdle h in
      let (n, f, l) =
        store_received-Loaded {b = record (base s) { in_buffer = m }} xs k (omega arith) in
      (
        n,
        record { shows = l.shows; at_front = l.at_front; same = l.same },
        rw (is_open-closed (base s) h.opened, e)
            (receive_ready-got c s (record (base s) { in_buffer = m }) xs h.live f),
      )
