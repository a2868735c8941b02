-- ===== src/Protocol/Run/Reader.antt =====
-- The client's part of a login: what each packet of the server makes of an idle session.
use necroauth.Prelude.{
  ℕ, suc, ◌+◌, ◌≤◌, ◌<◌, ◌≡◌, ◌++◌, ◌∷◌, true, List, [], length, some, ok, pos, arith, refl, ap,
  ◌∙◌, sym, take-append-drop, append_assoc, drop, ◌-◌, of_le, le_bytes, slice, drop_all,
  length-append,
}
use mathlib.Core.Path.{subst}
use necroauth.AuthCodes.{SocketStatus, status_eq}
use necroauth.NetworkMessage.{NetworkMessage, read_at, read_completed}
use necroauth.NetworkMessage.Contents.{contents}
use necroauth.NetworkMessage.Write.{Shows}
use necroauth.NetworkMessage.Buffer.{active_size-Shows, read_at-Shows, read_completed-Shows}
use necroauth.Socket.{got, receive, queue_packet, update_events, close}
use necroauth.Socket.Idle.{IsIdle, Loaded, receive-Loaded, read_completed-IsIdle}
use necroauth.Client.Session.{
  Session, Env, prepared, read_error, handle_gather_info_response, handle_proof_response,
}
use necroauth.Client.Session.Packets.{proof_bytes, proof_packet-Builds}
use necroauth.Client.Session.Read.{
  again, leave, read_round, read_callback, consumed, handled, run_handler, sized, dispatch,
  complete,
}
use necroauth.Client.Manager.{receiver}
use necroauth.Protocol.Keys.{authenticated, handle_proof_response-authenticated}
use necroauth.Protocol.Run.Client.{Fresh, queued, loaded, post-Shows}

-- With nothing unread, the loop ends.
read_round-empty :
    (e : Env) (s : Session) → Shows [] s.socket.in_buffer → read_round e s ≡ ok (leave s)
unfolding read_round
read_round-empty e s h = ground (arith, active_size-Shows h)

read_callback-single :
    (k : ℕ) (e : Env) (s t : Session)
    → read_round e s ≡ ok (again t)
    → Shows [] t.socket.in_buffer
    → read_callback (suc (suc k)) e s ≡ some (ok t)
unfolding read_callback
read_callback-single k e s t r h =
    rw (r, read_callback) (rw (read_round-empty e t h, read_callback) refl)

-- A read from the base of a buffer that was loaded into an idle socket.
read_at-Loaded :
    {bs : List ℕ} {old m : NetworkMessage} (q n : ℕ)
    → Loaded bs old m
    → q + n ≤ length bs
    → read_at m q n ≡ ok (slice bs q n)
read_at-Loaded {bs} {old} {m} q n l h =
    ap (λ p. read_at m p n) (omega (arith, l.at_front)) ∙ read_at-Shows q n l.shows h

-- The two bytes by which the server admits the client.
admission_handled :
    (e : Env) (s : Session) (m : NetworkMessage) {old : NetworkMessage}
    → Fresh e
    → 0 < length s.account.password
    → length s.account.password ≤ 15
    → Loaded (0 ∷ 0 ∷ []) old m
    → (reply : NetworkMessage) × (handle_gather_info_response e (loaded s m)
        ≡ ok (queued (prepared e (loaded s m)) reply, true))
      × Shows (proof_bytes e.drawn_prefix s.account.password) reply
unfolding handle_gather_info_response read_error of_le le_bytes
admission_handled e s m z some_password small l =
    let (p, k, holds) =
      proof_packet-Builds e.drawn_prefix s.account.password some_password (omega arith) in
    let (reply, posted, shows) =
      post-Shows e (prepared e (loaded s m)) p z holds (omega arith) (omega arith) in
    (reply, rw (read_at-Loaded 1 1 l (omega arith), k, posted) refl, shows)

first-Loaded :
    {b : ℕ} {bs : List ℕ} {old m : NetworkMessage}
    → Loaded (b ∷ bs) old m
    → read_at m m.rpos 1 ≡ ok (b ∷ [])
first-Loaded {b} {bs} {old} {m} l =
    ap (λ p. read_at m p 1) l.at_front ∙ read_at-Loaded 0 1 l (omega arith)

size-Loaded :
    {a b c d : ℕ} {bs : List ℕ} {old m : NetworkMessage}
    → Loaded (a ∷ b ∷ c ∷ d ∷ bs) old m
    → read_at m (m.rpos + 2) 2 ≡ ok (c ∷ d ∷ [])
size-Loaded {m = m} l =
    ap (λ p. read_at m p 2) (omega (arith, l.at_front)) ∙ read_at-Loaded 2 2 l (omega arith)

admission_round :
    (e : Env) (s t : Session) (m : NetworkMessage) {old : NetworkMessage}
    → s.status ≡ SocketStatus.gather_info
    → Loaded (0 ∷ 0 ∷ []) old m
    → handle_gather_info_response e (loaded s m) ≡ ok (t, true)
    → read_round e (loaded s m) ≡ ok (again (consumed t 2))
unfolding read_round dispatch sized complete run_handler handled of_le
admission_round e s t m state l k =
    rw
      (
        active_size-Shows l.shows,
        first-Loaded l,
        ap (λ x. status_eq x SocketStatus.gather_info) state,
        k,
      )
      (ground (arith, active_size-Shows l.shows))

keys_round :
    (e : Env) (s t : Session) (m : NetworkMessage) (ks : List ℕ) {old : NetworkMessage}
    → s.status ≡ SocketStatus.login_attempt
    → length ks ≡ 32
    → Loaded (1 ∷ 0 ∷ 32 ∷ 0 ∷ ks) old m
    → handle_proof_response (loaded s m) ≡ ok (t, true)
    → read_round e (loaded s m) ≡ ok (again (consumed t 36))
unfolding read_round dispatch sized complete run_handler handled of_le
keys_round e s t m ks state len l k =
    rw
      (
        active_size-Shows l.shows,
        len,
        first-Loaded l,
        ap (λ x. status_eq x SocketStatus.login_attempt) state,
        size-Loaded l,
        k,
      )
      (ground (arith, active_size-Shows l.shows, len))

bytes-Loaded :
    {bs : List ℕ} {old m : NetworkMessage}
    → Loaded bs old m
    → m.bytes ≡ bs ++ drop (m.wpos - m.rpos) m.bytes
unfolding contents
bytes-Loaded {bs} {old} {m} l =
    sym (take-append-drop (m.wpos - m.rpos) m.bytes)
    ∙ ap (λ xs. xs ++ drop (m.wpos - m.rpos) m.bytes)
        (ap (λ p. slice m.bytes p (m.wpos - m.rpos)) (sym l.at_front) ∙ l.shows.unread)

-- What an idle session receives, if one round takes all of it: the round's result.
receive-single :
    (k : ℕ) (e : Env) (s : Session) (bs : List ℕ)
    (next : (m : NetworkMessage) → Loaded bs s.socket.in_buffer m → Session)
    → IsIdle s.socket
    → length bs ≤ 64
    → ((m : NetworkMessage)
        → (l : Loaded bs s.socket.in_buffer m)
        → (read_round e (loaded s m) ≡ ok (again (next m l)))
          × Shows [] (next m l).socket.in_buffer)
    → (m : NetworkMessage) × (l : Loaded bs s.socket.in_buffer m) × (receive
          (receiver (suc (suc k)) e)
          s
          (got bs)
        ≡ ok (next m l, pos (length bs)))
receive-single k e s bs next h fits round =
    let (m, l, received) = receive-Loaded (receiver (suc (suc k)) e) s bs h fits in
    let (r, w) = round m l in
    (m, l, rw (received, read_callback-single k e (loaded s m) (next m l) r w) refl)

consumed_all :
    {bs : List ℕ} {old : NetworkMessage} (m : NetworkMessage) (n : ℕ)
    → Loaded bs old m
    → n ≡ length bs
    → Shows [] (read_completed m n)
consumed_all {bs} m n l e =
    subst (λ k. Shows k (read_completed m n)) (drop_all n bs (omega arith))
      (read_completed-Shows n l.shows (omega arith))

-- The admission, at an idle session that waits for it: the session queues its proof.
pub admission_received :
    (k : ℕ) (e : Env) (s : Session)
    → IsIdle s.socket
    → s.status ≡ SocketStatus.gather_info
    → Fresh e
    → 0 < length s.account.password
    → length s.account.password ≤ 15
    → (m reply : NetworkMessage) × IsIdle (record s.socket { in_buffer = m })
      × Shows (proof_bytes e.drawn_prefix s.account.password) reply
      × (receive (receiver (suc (suc k)) e) s (got (0 ∷ 0 ∷ []))
          ≡ ok (loaded (queued (prepared e s) reply) m, pos 2))
unfolding queue_packet update_events
admission_received k e s h state z some_password small =
    let handle = λ (m : NetworkMessage). λ (l : Loaded (0 ∷ 0 ∷ []) s.socket.in_buffer m).
      admission_handled e s m z some_password small l in
    let (m, l, received) =
      receive-single k e s (0 ∷ 0 ∷ [])
        (λ m l. consumed (queued (prepared e (loaded s m)) (handle m l).0) 2) h (omega arith)
        (λ m l. (
          admission_round e s (queued (prepared e (loaded s m)) (handle m l).0) m state l
              (handle m l).1,
          consumed_all m 2 l refl,
        )) in
    (
      read_completed m 2,
      (handle m l).0,
      read_completed-IsIdle m 2 h l refl,
      (handle m l).2,
      received,
    )

-- The reply with the keys, at an idle session that waits for it.
pub keys_received :
    (k : ℕ) (e : Env) (s : Session) (key greetcode : List ℕ)
    → IsIdle s.socket
    → s.status ≡ SocketStatus.login_attempt
    → length key ≡ 16
    → length greetcode ≡ 16
    → (m : NetworkMessage) × (receive
          (receiver (suc (suc k)) e)
          s
          (got (1 ∷ 0 ∷ 32 ∷ 0 ∷ key ++ greetcode))
        ≡ ok (
          loaded (authenticated s key greetcode) m,
          pos (length (1 ∷ 0 ∷ 32 ∷ 0 ∷ key ++ greetcode)),
        ))
unfolding close
keys_received k e s key greetcode h state key_len greet_len =
    let ks = key ++ greetcode in
    let len : length ks ≡ 32 = omega (arith, length-append key greetcode) in
    let (m, l, received) =
      receive-single k e s (1 ∷ 0 ∷ 32 ∷ 0 ∷ ks)
        (λ m l. consumed (authenticated (loaded s m) key greetcode) 36) h (omega (arith, len))
        (λ m l. (
          keys_round e s (authenticated (loaded s m) key greetcode) m ks state len l (
              handle_proof_response-authenticated (loaded s m) key greetcode
                (drop (m.wpos - m.rpos) m.bytes)
                (bytes-Loaded l
                  ∙ ap (λ xs. 1 ∷ 0 ∷ 32 ∷ 0 ∷ xs)
                      (append_assoc key greetcode (drop (m.wpos - m.rpos) m.bytes)))
                key_len greet_len),
          consumed_all m 36 l (omega (arith, len)),
        )) in
    (read_completed m 36, received)
