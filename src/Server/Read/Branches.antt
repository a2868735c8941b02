-- ===== src/Server/Read/Branches.antt =====
-- Every branch of a round of `ReadCallback`, from the unread bytes and the status.
use necroauth.Prelude.{
  ℕ, ◌+◌, ◌%◌, ◌^◌, ◌≤◌, ◌<◌, ◌≡◌, List, length, slice, of_le, Option, some, none, Result, ok,
  arith, ap, ◌∙◌, refl, Bool, true, false, ◌==◌, ◌>>=◌, if◌then◌else◌, ltb, Bool-cases, inl, inr,
}
use necroauth.NetworkMessage.{NetworkMessage, read_at, clear}
use necroauth.NetworkMessage.Write.{Shows}
use necroauth.NetworkMessage.Buffer.{active_size-Shows, read_at-Shows}
use necroauth.AuthCodes.{SocketStatus, status_eq, size_offset}
use necroauth.Server.Session.{Focus, Env, in_buffer, read_u8, read_u16, with_socket}
use necroauth.Server.Session.Greet.{byte_at}
use necroauth.Server.Read.{
  Handler, gather_info, login_proof, Next, leave, read_round, dispatch, sized, handled, run_handler,
  find_handler, wanted, initial_size, max_size, closed,
}

-- The size field of the packet that these bytes begin with.
abbrev pub size_field : List ℕ → ℕ
size_field bs = of_le (slice bs size_offset 2)

pub read_u16-Shows :
    {bs : List ℕ} {m : NetworkMessage}
    → Shows bs m
    → 4 ≤ length bs
    → read_u16 m (m.rpos + size_offset) ≡ ok (size_field bs)
unfolding read_u16
read_u16-Shows {bs} {m} s h = rw (read_at-Shows size_offset 2 s h)

pub initial_size_lem : (h : Handler) → initial_size h ≡ 4
initial_size_lem gather_info = refl
initial_size_lem login_proof = refl

-- What a stream of bytes asks for, in a state: the specification of a round, on the bytes alone.
pub data Verdict : Type 0 where
  idle unknown wrong_state partial oversized : Verdict
  deliver : Handler → ℕ → Verdict

abbrev size_verdict : Handler → List ℕ → ℕ → Verdict
size_verdict h bs n =
    if ltb 24 n then oversized else (if ltb (length bs) n then partial else deliver h n)

abbrev handler_verdict : SocketStatus → List ℕ → Option Handler → Verdict
handler_verdict state bs none = unknown
handler_verdict state bs (some h) =
    if status_eq state (wanted h)
    then (if ltb (length bs) 4 then partial else size_verdict h bs ((4 + size_field bs) % 2 ^ 16))
    else wrong_state

abbrev pub verdict : SocketStatus → List ℕ → Verdict
verdict state bs =
    if length bs == 0 then idle else handler_verdict state bs (find_handler (byte_at bs 0))

-- What the session does for each verdict.
abbrev pub act : Env → Focus → Verdict → Result Next
act e f idle = ok (leave f)
act e f unknown =
    ok (leave (with_socket f (record f.self.socket { in_buffer = clear (in_buffer f) })))
act e f wrong_state = ok (leave (closed f))
act e f partial = ok (leave f)
act e f oversized = ok (leave (closed f))
act e f (deliver h n) = run_handler h e f >>= λ r. ok (handled n r)

max_size_lem : (h : Handler) → max_size h ≡ 24
max_size_lem gather_info = refl
max_size_lem login_proof = refl

module _ {bs : List ℕ} (e : Env) (f : Focus) (s : Shows bs (in_buffer f)) where
  first_byte : 0 < length bs → read_at (in_buffer f) (in_buffer f).rpos 1 ≡ ok (slice bs 0 1)
  first_byte h =
      ap (λ p. read_at (in_buffer f) p 1) (omega arith) ∙ read_at-Shows 0 1 s (omega arith)

  sized-verdict : (h : Handler) (n : ℕ) → sized h e f n ≡ act e f (size_verdict h bs n)
  unfolding sized
  sized-verdict h n = rw (active_size-Shows s, max_size_lem h) (go (ltb 24 n) (ltb (length bs) n))
    where
      go :
          (large short : Bool)
          → (if large
              then ok (leave (closed f))
              else (if short then ok (leave f) else (run_handler h e f >>= λ r. ok (handled n r))))
            ≡ act e f (if large then oversized else (if short then partial else deliver h n))
      go true short = refl
      go false true = refl
      go false false = refl

  dispatch-verdict :
      (o : Option Handler) → dispatch e f o ≡ act e f (handler_verdict f.self.status bs o)
  unfolding dispatch
  dispatch-verdict none = refl
  dispatch-verdict (some h) = elim (Bool-cases (status_eq f.self.status (wanted h))) [
    | inr other ↦ rw other refl
    | inl state ↦ elim (Bool-cases (ltb (length bs) 4)) [
      | inl short ↦ rw (state, active_size-Shows s, initial_size_lem h, short) refl
      | inr enough ↦
          rw
            (
              state,
              active_size-Shows s,
              initial_size_lem h,
              enough,
              read_u16-Shows s (ground arith),
            )
            (sized-verdict h ((4 + size_field bs) % 2 ^ 16))
    ]
  ]

  -- If the in-buffer is valid and these are its unread bytes, a round of the loop does what the
  -- specification says of those bytes and the status, on every branch.
  pub read_round-verdict : read_round e f ≡ act e f (verdict f.self.status bs)
  unfolding read_round read_u8
  read_round-verdict = elim (Bool-cases (length bs == 0)) [
    | inl none_left ↦ rw (active_size-Shows s, none_left) refl
    | inr some_left ↦
        rw (active_size-Shows s, some_left, first_byte (ground arith))
          (dispatch-verdict (find_handler (byte_at bs 0)))
  ]
