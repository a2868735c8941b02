-- ===== src/Protocol/Run/Server.antt =====
-- The server's part of a login: what each packet of the client makes of an idle session.
use necroauth.Prelude.{
  ℕ, suc, ◌+◌, ◌^◌, ◌≤◌, ◌<◌, ◌≡◌, ◌++◌, ◌∷◌, true, le→ltb, if◌then◌else◌, List, [], length, sym,
  of_le, le_bytes, some, ok, ◌>>=◌, pos, arith, refl, ap, ◌∙◌, drop_all,
}
use necroauth.Database.Connection.{Executed}
use mathlib.Core.Path.{subst}
use necroauth.AuthCodes.{SocketStatus}
use necroauth.NetworkMessage.{NetworkMessage, read_completed}
use necroauth.NetworkMessage.Write.{Shows}
use necroauth.NetworkMessage.Buffer.{read_completed-Shows}
use necroauth.Socket.{got, receive}
use necroauth.Socket.Idle.{IsIdle, Loaded, receive-Loaded, read_completed-IsIdle}
use necroauth.Server.Session.{Focus, Env, in_buffer, with_socket}
use necroauth.Server.Read.{
  Handler, login_proof, run_handler, handled, read_round, read_callback, again, leave, consumed,
}
use necroauth.Server.Read.Branches.{verdict, deliver, oversized, act, read_round-verdict}
use necroauth.Server.Poll.{receiver}
use necroauth.Aes.{Iv}
use necroauth.Socket.{queue_packet, update_events}
use necroauth.Server.Session.{greeted, avoid_prefix}
use necroauth.Server.Session.Reply.{Fresh, queued}
use necroauth.Server.Proof.Accept.{accepted, low_bytes}
use necroauth.Server.Proof.Outcome.{Submitted, handle_login_proof_right}
use necroauth.Protocol.Login.{verdict-proof_bytes, proof_read_back}
use necroauth.Server.Session.Greet.{select_id}
use necroauth.Client.Session.Packets.{greet_bytes, proof_bytes}
use necroauth.Protocol.Greeting.{greeting_accepted}

-- With nothing unread, the loop ends.
read_round-empty : (e : Env) (f : Focus) → Shows [] (in_buffer f) → read_round e f ≡ ok (leave f)
read_round-empty e f s = read_round-verdict e f s

-- A round that consumes all unread bytes is the last but one.
pub read_callback-single :
    (k : ℕ) (e : Env) (f g : Focus)
    → read_round e f ≡ ok (again g)
    → Shows [] (in_buffer g)
    → read_callback (suc (suc k)) e f ≡ some (ok g)
unfolding read_callback
read_callback-single k e f g r s =
    rw (r, read_callback) (rw (read_round-empty e g s, read_callback) refl)

pub consumed_all :
    {bs : List ℕ} (f : Focus) (n : ℕ)
    → Shows bs (in_buffer f)
    → n ≡ length bs
    → Shows [] (in_buffer (consumed f n))
consumed_all {bs} f n s e =
    subst (λ l. Shows l (in_buffer (consumed f n))) (drop_all n bs (omega arith))
      (read_completed-Shows n s (omega arith))

-- A session with this in-buffer.
abbrev pub loaded : Focus → NetworkMessage → Focus
loaded f m = with_socket f (record f.self.socket { in_buffer = m })

-- What an idle session receives, if one round takes all of it: the round's result.
pub receive-single :
    (k : ℕ) (e : Env) (f : Focus) (bs : List ℕ)
    (next : (m : NetworkMessage) → Loaded bs (in_buffer f) m → Focus)
    → IsIdle f.self.socket
    → length bs ≤ 64
    → ((m : NetworkMessage)
        → (l : Loaded bs (in_buffer f) m)
        → (read_round e (loaded f m) ≡ ok (again (next m l))) × Shows [] (in_buffer (next m l)))
    → (m : NetworkMessage) × (l : Loaded bs (in_buffer f) m) × (receive
          (receiver (suc (suc k)) e)
          f
          (got bs)
        ≡ ok (next m l, pos (length bs)))
unfolding receiver
receive-single k e f bs next h fits round =
    let (m, l, received) = receive-Loaded (receiver (suc (suc k)) e) f bs h fits in
    let (r, s) = round m l in
    (m, l, rw (received, read_callback-single k e (loaded f m) (next m l) r s) refl)

-- The greeting of a username of at most 16 bytes.
pub greeting_received :
    (k : ℕ) (e : Env) (f : Focus) (name : List ℕ)
    → IsIdle f.self.socket
    → f.self.status ≡ SocketStatus.gather_info
    → length name ≤ 16
    → (m : NetworkMessage) × IsIdle (record f.self.socket { in_buffer = m })
      × (receive (receiver (suc (suc k)) e) f (got (greet_bytes name))
          ≡ ok (loaded (greeted f name 1 0 0 select_id) m, pos (length (greet_bytes name))))
unfolding greeted
greeting_received k e f name h state small =
    let n = 8 + length name in
    let (m, l, received) =
      receive-single k e f (greet_bytes name)
        (λ m l. consumed (greeted (loaded f m) name 1 0 0 select_id) n) h (omega arith)
        (λ m l. (
          greeting_accepted e (loaded f m) name l.shows state small,
          consumed_all (greeted (loaded f m) name 1 0 0 select_id) n l.shows (omega arith),
        )) in
    (read_completed m n, read_completed-IsIdle m n h l (omega arith), received)

-- A packet that is delivered to a handler that succeeds is consumed.
delivered :
    {bs : List ℕ} (e : Env) (f g : Focus) (h : Handler) (n : ℕ)
    → Shows bs (in_buffer f)
    → verdict f.self.status bs ≡ deliver h n
    → run_handler h e f ≡ ok (g, true)
    → read_round e f ≡ ok (again (consumed g n))
unfolding handled
delivered e f g h n s v k =
    read_round-verdict e f s ∙ ap (act e f) v ∙ ap (λ r. r >>= λ r. ok (handled n r)) k

length-proof_bytes :
    (client : ℕ) (password : List ℕ) → 9 + length password ≡ length (proof_bytes client password)
unfolding le_bytes
length-proof_bytes client password = omega arith

proof_delivered :
    (client : ℕ) (password : List ℕ) (state : SocketStatus)
    → state ≡ SocketStatus.login_attempt
    → length password ≤ 15
    → verdict state (proof_bytes client password) ≡ deliver login_proof (9 + length password)
proof_delivered client password state e small =
    ap (λ s. verdict s (proof_bytes client password)) e
    ∙ verdict-proof_bytes client password (omega arith)
    ∙ ap (λ b. if b then oversized else deliver login_proof (9 + length password))
        (le→ltb 15 (length password) small)

-- What the proof handler needs of the draws, and the password that it compares.
pub record Login (e : Env) (f : Focus) (client : ℕ) (password key greetcode : List ℕ) (iv : Iv)
    (prefixes : List ℕ) (keys : List (List ℕ)) : Type 0 where
  pub small : length password ≤ 15
  pub low : client < 2 ^ 32
  pub fresh : Fresh e
  pub row : e.password_row f.self.account.account_id ≡ Executed.rows (some password)
  pub drawn : avoid_prefix client f.self.account.iv f.random.prefixes ≡ ok (iv, prefixes)
  pub keys_lem : f.random.keys ≡ key ∷ greetcode ∷ keys
  pub key_sizes : length key + length greetcode < 2 ^ 32

-- The focus after a right password.
abbrev pub proved : Focus → Iv → List ℕ → List ℕ → List ℕ → List (List ℕ) → NetworkMessage → Focus
proved f iv prefixes key greetcode keys reply =
    let g = accepted f iv prefixes key greetcode keys in record g { self = queued g.self reply }

module _ (e : Env) (f : Focus) (client : ℕ) (password key greetcode : List ℕ) (iv : Iv)
    (prefixes : List ℕ) (keys : List (List ℕ))
    (d : Login e f client password key greetcode iv prefixes keys) where
  proof_handled :
      (m : NetworkMessage)
      → Loaded (proof_bytes client password) (in_buffer f) m
      → (reply : NetworkMessage) × Shows
          (1 ∷ 0 ∷ 32 ∷ 0 ∷ low_bytes key ++ low_bytes greetcode)
          reply
        × (run_handler login_proof e (loaded f m)
            ≡ ok (proved (loaded f m) iv prefixes key greetcode keys reply, true))
  unfolding run_handler of_le le_bytes
  proof_handled m l =
      let back = proof_read_back client password (omega (arith, d.small)) d.low in
      let submitted : Submitted e (loaded f m) (proof_bytes client password) password = record {
        shows = l.shows;
        whole = omega (arith, d.small);
        row = d.row;
        fresh = d.fresh;
      } in
      let (reply, handled, shows, _) =
        handle_login_proof_right e (loaded f m) (proof_bytes client password) password iv prefixes
          key greetcode keys submitted (sym back.0)
          (ap (λ p. avoid_prefix p f.self.account.iv f.random.prefixes) back.1 ∙ d.drawn) d.keys_lem
          d.key_sizes in
      (reply, shows, handled)

  -- The proof of the stored password, at an idle session that waits for it.
  pub proof_received :
      (k : ℕ)
      → IsIdle f.self.socket
      → f.self.status ≡ SocketStatus.login_attempt
      → (m reply : NetworkMessage) × IsIdle (record f.self.socket { in_buffer = m })
        × Shows (1 ∷ 0 ∷ 32 ∷ 0 ∷ low_bytes key ++ low_bytes greetcode) reply
        × (receive (receiver (suc (suc k)) e) f (got (proof_bytes client password))
            ≡ ok (
              loaded (proved f iv prefixes key greetcode keys reply) m,
              pos (length (proof_bytes client password)),
            ))
  unfolding queue_packet update_events
  proof_received k h state =
      let bs = proof_bytes client password in
      let n = 9 + length password in
      let fits : n ≡ length bs = length-proof_bytes client password in
      let (m, l, received) =
        receive-single k e f bs
          (λ m l.
            consumed (proved (loaded f m) iv prefixes key greetcode keys (proof_handled m l).0) n)
          h (omega (arith, fits, d.small))
          (λ m l. (
            delivered e (loaded f m)
                (proved (loaded f m) iv prefixes key greetcode keys (proof_handled m l).0)
                login_proof n l.shows (proof_delivered client password f.self.status state d.small)
                (proof_handled m l).2,
            consumed_all (proved (loaded f m) iv prefixes key greetcode keys (proof_handled m l).0)
                n l.shows fits,
          )) in
      (
        read_completed m n,
        (proof_handled m l).0,
        read_completed-IsIdle m n h l fits,
        (proof_handled m l).1,
        received,
      )
