-- ===== src/Socket/Receive.antt =====
-- `Receive`: what reaches the callback, and what becomes of errors.
use necroauth.Prelude.{
  ℕ, ◌≤◌, ◌<◌, ◌^◌, ◌≡◌, inl, inr, ap, ◌∙◌, true, false, List, ◌++◌, length, ok, >>=-eq-ok, ◌>>=◌,
  pos, arith, Bool-cases, not, ◌&&◌,
}
use necroauth.NetworkMessage.{
  NetworkMessage, get_remaining_space, enlarge_buffer_if_needed, store_at,
}
use necroauth.NetworkMessage.Contents.{compact_data-Compacted}
use necroauth.NetworkMessage.Write.{Shows}
use necroauth.NetworkMessage.Buffer.{enlarge-Shows, filled-Shows, enlarge_room}
use necroauth.Socket.{
  Socket, got, Derived, receive, receive_ready, make_ready, store_received, is_open, on_plain,
  on_tls,
}

-- The bytes that wait in the in-buffer of a socket.
abbrev pub Buffers : List ℕ → Socket → Type 0
Buffers bs b = Shows bs b.in_buffer × (length b.in_buffer.bytes < 2 ^ 62)

-- Preparing for a read keeps the unread bytes, and leaves room if the buffer has two bytes at least.
pub make_ready-Buffers :
    {bs : List ℕ} {b : Socket}
    → Buffers bs b
    → (m : NetworkMessage) × (make_ready b ≡ ok (record b { in_buffer = m }))
      × Shows bs m
      × (2 ≤ length b.in_buffer.bytes → 0 < get_remaining_space m)
unfolding make_ready
make_ready-Buffers {bs} {b} h =
    let (c, e, k) = compact_data-Compacted h.0.valid in
    let t : Shows bs c = record { valid = k.valid; unread = k.same ∙ h.0.unread } in
    (
      enlarge_buffer_if_needed c,
      rw e,
      enlarge-Shows t (omega (arith, k.room, h.1)),
      λ two. enlarge_room k.valid (omega (arith, k.room, two)) (omega (arith, k.room, h.1)),
    )

pub store_received-Buffers :
    {bs : List ℕ} {b : Socket} (xs : List ℕ)
    → Shows bs b.in_buffer
    → length xs ≤ get_remaining_space b.in_buffer
    → (m : NetworkMessage) × (store_received b xs ≡ ok (record b { in_buffer = m }))
      × Shows (bs ++ xs) m
unfolding store_received
store_received-Buffers {bs} {b} xs h fits =
    let (n, e, k, _) = filled-Shows xs h fits in
    let (a, stored, whole) = >>=-eq-ok (store_at b.in_buffer b.in_buffer.wpos xs) _ e in
    (n, rw stored (ap (λ r. r >>= λ m. ok (record b { in_buffer = m })) whole), k)

pub is_open-closed : (b : Socket) → b.closed ≡ false → is_open b ≡ true
unfolding is_open
is_open-closed b e = rw e

module _ {S : Type 0} (c : Derived S) where
  open c use {base, with_base, read_callback}

  pub receive_ready-got :
      (s : S) (b : Socket) (xs : List ℕ) {b' : Socket}
      → (b.uses_tls && not b.ssl) ≡ false
      → store_received b xs ≡ ok b'
      → receive_ready c s b (got xs)
        ≡ (read_callback (with_base s b') >>= λ s'. ok (s', pos (length xs)))
  unfolding receive_ready on_plain on_tls
  receive_ready-got s b xs live e = elim (Bool-cases b.uses_tls) [
    | inr plain ↦ rw (e, plain)
    | inl tls ↦ elim (Bool-cases b.ssl) [
      | inl object ↦ rw (e, tls, object)
      | inr gone ↦ ground arith
    ]
  ]

  -- On an open socket with a valid buffer below 2^62 bytes, which does not lack a TLS object that
  -- it uses, bytes that fit into the prepared buffer reach the callback behind those that were
  -- still unread, and Receive returns their number unless the callback fails.
  pub receive-got :
      {bs : List ℕ} (s : S) (xs : List ℕ)
      → (base s).closed ≡ false
      → ((base s).uses_tls && not (base s).ssl) ≡ false
      → Buffers bs (base s)
      → (room : (r : Socket)
          → make_ready (base s) ≡ ok r
          → length xs ≤ get_remaining_space r.in_buffer)
      → (m : NetworkMessage) × Shows (bs ++ xs) m
        × (receive c s (got xs) ≡ (
            read_callback (with_base s (record (base s) { in_buffer = m })) >>= λ s'.
            ok (s', pos (length xs))))
  unfolding receive
  receive-got {bs} s xs opened live h room =
      let (m, e, k, _) = make_ready-Buffers h in
      let (n, f, l) =
        store_received-Buffers {b = record (base s) { in_buffer = m }} xs k (room _ e) in
      (
        n,
        l,
        rw (is_open-closed (base s) opened, e)
            (receive_ready-got s (record (base s) { in_buffer = m }) xs live f),
      )
