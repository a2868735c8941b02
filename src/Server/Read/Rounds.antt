-- ===== src/Server/Read/Rounds.antt =====
-- What one round of `ReadCallback` leaves alone, and what it consumes.
use necroauth.Prelude.{
  ℕ, ◌+◌, ◌≤◌, ◌≡◌, ◌≢◌, Bool, true, false, inl, inr, Option, none, some, ok, >>=-eq-ok, arith,
  Bool-cases, refl, ap, ◌∙◌, ltb, ◌==◌,
}
use necroauth.AuthCodes.{status_eq}
use necroauth.Packet.{Packet}
use necroauth.Server.Session.{
  Session, Focus, Env, handle_gather_info, reply, in_buffer, read_u8, read_u16,
}
use necroauth.Socket.{queue_packet, update_events}
use necroauth.Server.Proof.{handle_login_proof, accept, refuse, decide, check_proof, answer_proof}
use necroauth.Server.Read.{
  Handler, gather_info, login_proof, run_handler, find_handler, wanted, max_size, initial_size,
  consumed, again, sized, handled, whole_size, dispatch, read_round,
}
use necroauth.NetworkMessage.{get_active_size}
use necroauth.AuthCodes.{size_offset}

-- A handler leaves the in-buffer and the status.
pub record Untouched (f g : Focus) : Type 0 where
  pub same_buffer : in_buffer g ≡ in_buffer f
  pub same_status : g.self.status ≡ f.self.status

pub gather_info-Untouched :
    (f g : Focus) (b : Bool) → handle_gather_info f ≡ ok (g, b) → Untouched f g × (b ≡ true)
unfolding handle_gather_info
gather_info-Untouched f g b e = ground arith

accept-Untouched :
    (f g : Focus) (client : ℕ) (p q : Packet) → accept f client p ≡ ok (g, q) → Untouched f g
unfolding accept
accept-Untouched f g client p q e = ground arith

refuse-Untouched : (f g : Focus) (p q : Packet) → refuse f p ≡ ok (g, q) → Untouched f g
unfolding refuse
refuse-Untouched f g p q e = ground arith

reply-same :
    (e : Env) (s t : Session) (p : Packet)
    → reply e s p ≡ ok t
    → (t.socket.in_buffer ≡ s.socket.in_buffer) × (t.status ≡ s.status)
unfolding reply queue_packet update_events
reply-same e s t p h = ground arith

decide-Untouched :
    (b : Bool) (f g : Focus) (client : ℕ) (p q : Packet)
    → decide b f client p ≡ ok (g, q)
    → Untouched f g
unfolding decide
decide-Untouched true f g client p q e = accept-Untouched f g client p q e
decide-Untouched false f g client p q e = refuse-Untouched f g p q e

check_proof-Untouched :
    (e : Env) (f g : Focus) (p q : Packet) → check_proof e f p ≡ ok (g, q) → Untouched f g
unfolding check_proof
check_proof-Untouched e f g p q h = grind (arith, decide-Untouched)

answer_proof-Untouched :
    (e : Env) (f g : Focus) (p : Packet) (b : Bool)
    → answer_proof e (f, p) ≡ ok (g, b)
    → Untouched f g × (b ≡ true)
unfolding answer_proof
answer_proof-Untouched e f g p b h = grind (arith, reply-same)

login_proof-Untouched :
    (e : Env) (f g : Focus) (b : Bool)
    → handle_login_proof e f ≡ ok (g, b)
    → Untouched f g × (b ≡ true)
unfolding handle_login_proof
login_proof-Untouched e f g b h = grind (arith, check_proof-Untouched, answer_proof-Untouched)

pub run_handler-Untouched :
    (h : Handler) (e : Env) (f g : Focus) (b : Bool)
    → run_handler h e f ≡ ok (g, b)
    → Untouched f g × (b ≡ true)
unfolding run_handler
run_handler-Untouched gather_info e f g b k = gather_info-Untouched f g b k
run_handler-Untouched login_proof e f g b k = login_proof-Untouched e f g b k

-- A round that goes on has called a handler on a packet of this size, and has consumed it.
pub record Consumes (h : Handler) (e : Env) (f g : Focus) (size : ℕ) : Type 0 where
  pub result : Focus
  pub called : run_handler h e f ≡ ok (result, true)
  pub next : g ≡ consumed result size
  pub accepted : size ≤ max_size h
  pub available : size ≤ get_active_size (in_buffer f)

handled-again :
    (size : ℕ) (r : Focus × Bool) (g : Focus)
    → handled size r ≡ again g
    → (r ≡ (r.0, true)) × (g ≡ consumed r.0 size)
unfolding handled
handled-again size (f, true) g e = (refl, ground arith)
handled-again size (f, false) g e = cc

sized-Consumes :
    (h : Handler) (e : Env) (f g : Focus) (size : ℕ)
    → sized h e f size ≡ ok (again g)
    → Consumes h e f g size
unfolding sized
sized-Consumes h e f g size k = elim (Bool-cases (ltb (max_size h) size)) [
  | inl large ↦ cc (rw large at k)
  | inr fits ↦ elim (Bool-cases (ltb (get_active_size (in_buffer f)) size)) [
    | inl short ↦ cc (rw (fits, short) at k)
    | inr there ↦
        let (r, called, last) = >>=-eq-ok (run_handler h e f) _ (rw (fits, there) at k) in
        let (good, next) = handled-again size r g (ground arith) in
        record {
          result = r.0;
          called = called ∙ ap ok good;
          next = next;
          accepted = ground arith;
          available = ground arith;
        }
  ]
]

-- The same, of the whole round: the handler is the one of the first byte, in the state that it
-- wants, and the size is the one of the packet's header.
pub record Round (e : Env) (f g : Focus) : Type 0 where
  pub handler : Handler
  pub field : ℕ
  pub found :
      (cmd : ℕ) × (read_u8 (in_buffer f) (in_buffer f).rpos ≡ ok cmd)
      × (find_handler cmd ≡ some handler)
  pub enough : initial_size handler ≤ get_active_size (in_buffer f)
  pub header : read_u16 (in_buffer f) ((in_buffer f).rpos + size_offset) ≡ ok field
  pub in_state : status_eq f.self.status (wanted handler) ≡ true
  pub consumes : Consumes handler e f g (whole_size handler field)

dispatch-some-Round :
    (e : Env) (f g : Focus) (cmd : ℕ) (x : Handler)
    → read_u8 (in_buffer f) (in_buffer f).rpos ≡ ok cmd
    → find_handler cmd ≡ some x
    → dispatch e f (some x) ≡ ok (again g)
    → Round e f g
unfolding dispatch
dispatch-some-Round e f g cmd x c h k = elim (Bool-cases (status_eq f.self.status (wanted x))) [
  | inr other ↦ cc (rw other at k)
  | inl state ↦ elim (Bool-cases (ltb (get_active_size (in_buffer f)) (initial_size x))) [
    | inl short ↦ cc (rw (state, short) at k)
    | inr there ↦
        let (field, header, last) =
          >>=-eq-ok (read_u16 (in_buffer f) ((in_buffer f).rpos + size_offset)) _
            (rw (state, there) at k) in
        record {
          handler = x;
          field = field;
          found = (cmd, c, h);
          enough = ground arith;
          header = header;
          in_state = state;
          consumes = sized-Consumes x e f g (whole_size x field) last;
        }
  ]
]

dispatch-none-stops : (e : Env) (f g : Focus) → dispatch e f none ≢ ok (again g)
unfolding dispatch
dispatch-none-stops e f g k = cc

dispatch-Round :
    (e : Env) (f g : Focus) (cmd : ℕ) (o : Option Handler)
    → read_u8 (in_buffer f) (in_buffer f).rpos ≡ ok cmd
    → find_handler cmd ≡ o
    → dispatch e f o ≡ ok (again g)
    → Round e f g
dispatch-Round e f g cmd none c h k = absurd (dispatch-none-stops e f g k)
dispatch-Round e f g cmd (some x) c h k = dispatch-some-Round e f g cmd x c h k

pub read_round-Round : (e : Env) (f g : Focus) → read_round e f ≡ ok (again g) → Round e f g
unfolding read_round
read_round-Round e f g k = elim (Bool-cases (get_active_size (in_buffer f) == 0)) [
  | inl idle ↦ cc (rw idle at k)
  | inr more ↦
      let (cmd, c, last) = >>=-eq-ok (read_u8 (in_buffer f) (in_buffer f).rpos) _ (rw more at k) in
      dispatch-Round e f g cmd (find_handler cmd) c refl last
]
