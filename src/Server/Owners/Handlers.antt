-- ===== src/Server/Owners/Handlers.antt =====
-- NECROAuth/Server/Auth/AuthSession.cpp: whose requests the two handlers enqueue.
use necroauth.Prelude.{
  ℕ, ◌+◌, ◌-◌, ◌≡◌, inr, refl, Bool, true, false, List, Result, ok, ◌>>=◌, >>=-eq-ok, arith,
}
use necroauth.Database.Connection.{login_execute}
use mathlib.Core.Path.{subst}
use necroauth.Database.{DbRequest, prepare, Statement}
use necroauth.Worker.{enqueue}
use necroauth.Packet
use necroauth.Packet.{Packet, put_u8, put_u16}
use necroauth.Aes.{Random, generate_session_key, reset_counter}
use necroauth.NetworkMessage.{read_at, of_packet}
use necroauth.AuthCodes.{
  aes_128_key_size, c_proof_sizeof, c_proof_initial_size, LoginProofResult, proof_result_code,
  username_size_offset, username_offset, version_offset, password_size_offset, password_offset,
  iv_prefix_offset, PacketId, packet_id_code,
}
use necroauth.Server.Session.{
  Session, Env, Focus, handle_gather_info, greeted, reply, read_u8, read_u32, put_each,
  avoid_prefix, bytes_eq,
}
use necroauth.Server.Proof.{
  handle_login_proof, refuse, accept, decide, check_proof, answer_proof, stored_password,
  delete_sessions_request, new_session_request, wrong_password_request,
}
use necroauth.Server.Read.{Handler, gather_info, login_proof, run_handler}
use necroauth.Server.Owners.{Keeps, Keeps-trans, Keeps-same, ok-inj, fired, enqueue-AreOwned}

module _ (P : ℕ → Type 0) where
  handle_gather_info-Keeps :
      (f : Focus) {r : Focus × Bool} → handle_gather_info f ≡ ok r → Keeps P f r.0
  unfolding handle_gather_info greeted
  handle_gather_info-Keeps f h =
      let m = f.self.socket.in_buffer in
      let (size, _, h1) = >>=-eq-ok (read_u8 m (m.rpos + username_size_offset)) _ h in
      let (login, _, h2) = >>=-eq-ok (read_at m (m.rpos + username_offset) size) _ h1 in
      let (major, _, h3) = >>=-eq-ok (read_u8 m (m.rpos + version_offset)) _ h2 in
      let (minor, _, h4) = >>=-eq-ok (read_u8 m (m.rpos + (version_offset + 1))) _ h3 in
      let (revision, _, h5) = >>=-eq-ok (read_u8 m (m.rpos + (version_offset + 2))) _ h4 in
      let (statement, _, h6) = >>=-eq-ok (prepare Statement.sel_account_id_by_name) _ h5 in
      subst (λ r. Keeps P f r.0) (ok-inj h6)
        (record {
          this = refl;
          owned = λ p o. enqueue-AreOwned P f.worker _ (inr (f.self.this, refl, p)) o;
        })

  delete_sessions-fired :
      (s : Session) {r : DbRequest} → delete_sessions_request s ≡ ok r → r.fire_and_forget ≡ true
  unfolding delete_sessions_request prepare
  delete_sessions-fired s h = ground arith

  new_session-fired :
      (s : Session) (greetcode : List ℕ) {r : DbRequest}
      → new_session_request s greetcode ≡ ok r
      → r.fire_and_forget ≡ true
  unfolding new_session_request prepare
  new_session-fired s greetcode h = ground arith

  wrong_password-fired :
      (s : Session) {r : DbRequest} → wrong_password_request s ≡ ok r → r.fire_and_forget ≡ true
  unfolding wrong_password_request prepare
  wrong_password-fired s h = ground arith

  refuse-Keeps : (f : Focus) (p : Packet) {r : Focus × Packet} → refuse f p ≡ ok r → Keeps P f r.0
  unfolding refuse
  refuse-Keeps f p h =
      let (req, e, h1) = >>=-eq-ok (wrong_password_request f.self) _ h in
      let (q, _, h2) = >>=-eq-ok (put_u8 (proof_result_code LoginProofResult.failed) p) _ h1 in
      let (r, _, h3) =
        >>=-eq-ok
          (put_u16 (c_proof_sizeof - c_proof_initial_size - aes_128_key_size - aes_128_key_size) q)
          _ h2 in
      subst (λ r. Keeps P f r.0) (ok-inj h3)
        (record {
          this = refl;
          owned = λ _ o. fired P f.worker req (wrong_password-fired f.self e) o;
        })

  -- The end of `accept`, once the key is in the packet.
  abbrev accept_end : Focus → Session → Random → Packet → Result (Focus × Packet)
  accept_end f self random t = do
    (greetcode, random') ← generate_session_key random
    delete ← delete_sessions_request self
    insert ← new_session_request self greetcode
    u ← put_each greetcode t
    ok (
      record f { self = self; worker = enqueue (enqueue f.worker delete) insert; random = random' },
      u,
    )

  accept_end-Keeps :
      (f : Focus) (self : Session) (random : Random) (t : Packet) {r : Focus × Packet}
      → self.this ≡ f.self.this
      → accept_end f self random t ≡ ok r
      → Keeps P f r.0
  accept_end-Keeps f self random t e h =
      let ((greetcode, random'), _, h1) = >>=-eq-ok (generate_session_key random) _ h in
      let (delete, d, h2) = >>=-eq-ok (delete_sessions_request self) _ h1 in
      let (insert, i, h3) = >>=-eq-ok (new_session_request self greetcode) _ h2 in
      let (u, _, h4) = >>=-eq-ok (put_each greetcode t) _ h3 in
      subst (λ r. Keeps P f r.0) (ok-inj h4)
        (record {
          this = e;
          owned = λ _ o.
              fired P (enqueue f.worker delete) insert (new_session-fired self greetcode i)
                (fired P f.worker delete (delete_sessions-fired self d) o);
        })

  accept-Keeps :
      (f : Focus) (client : ℕ) (p : Packet) {r : Focus × Packet}
      → accept f client p ≡ ok r
      → Keeps P f r.0
  unfolding accept
  accept-Keeps f client p h =
      let (q, _, h1) = >>=-eq-ok (put_u8 (proof_result_code LoginProofResult.success) p) _ h in
      let (r, _, h2) = >>=-eq-ok (put_u16 (c_proof_sizeof - c_proof_initial_size) q) _ h1 in
      let ((iv, prefixes), _, h3) =
        >>=-eq-ok (avoid_prefix client f.self.account.iv f.random.prefixes) _ h2 in
      let ((key, random), _, h4) =
        >>=-eq-ok (generate_session_key (record f.random { prefixes = prefixes })) _ h3 in
      let (t, _, h5) = >>=-eq-ok (put_each key r) _ h4 in
      accept_end-Keeps f
        (record f.self {
          account = record f.self.account { iv = reset_counter iv; session_key = key };
        })
        random t refl h5

  decide-Keeps :
      (b : Bool) (f : Focus) (client : ℕ) (p : Packet) {r : Focus × Packet}
      → decide b f client p ≡ ok r
      → Keeps P f r.0
  unfolding decide
  decide-Keeps true f client p h = accept-Keeps f client p h
  decide-Keeps false f client p h = refuse-Keeps f p h

  check_proof-Keeps :
      (e : Env) (f : Focus) (p : Packet) {r : Focus × Packet}
      → check_proof e f p ≡ ok r
      → Keeps P f r.0
  unfolding check_proof
  check_proof-Keeps e f p h =
      let m = f.self.socket.in_buffer in
      let (_, _, h1) = >>=-eq-ok (prepare Statement.check_password) _ h in
      let (row, _, h1') =
        >>=-eq-ok (login_execute (e.password_row f.self.account.account_id)) _ h1 in
      let (password, _, h2) = >>=-eq-ok (stored_password row) _ h1' in
      let (size, _, h3) = >>=-eq-ok (read_u8 m (m.rpos + password_size_offset)) _ h2 in
      let (given, _, h4) = >>=-eq-ok (read_at m (m.rpos + password_offset) size) _ h3 in
      let (client, _, h5) = >>=-eq-ok (read_u32 m (m.rpos + iv_prefix_offset)) _ h4 in
      decide-Keeps (bytes_eq password given) f client p h5

  answer_proof-Keeps :
      (e : Env) (f g : Focus) (p : Packet) {r : Focus × Bool}
      → Keeps P f g
      → answer_proof e (g, p) ≡ ok r
      → Keeps P f r.0
  unfolding answer_proof reply
  answer_proof-Keeps e f g p k h =
      let (self, a, h1) = >>=-eq-ok (reply e g.self p) _ h in
      let (m, _, a1) = >>=-eq-ok (of_packet e.stale_rpos e.stale_wpos p) _ a in
      let same : self.this ≡ g.self.this = subst (λ s. s.this ≡ g.self.this) (ok-inj a1) refl in
      let t : Focus = record g { self = self } in
      subst (λ r. Keeps P f r.0) (ok-inj h1) (Keeps-trans P f g t k (Keeps-same P same refl))

  pub run_handler-Keeps :
      (i : Handler) (e : Env) (f : Focus) {r : Focus × Bool}
      → run_handler i e f ≡ ok r
      → Keeps P f r.0
  unfolding run_handler handle_login_proof
  run_handler-Keeps gather_info e f h = handle_gather_info-Keeps f h
  run_handler-Keeps login_proof e f h =
      let (p, _, h1) = >>=-eq-ok (put_u8 (packet_id_code PacketId.login_attempt) Packet.new) _ h in
      let ((g, q), k, h2) = >>=-eq-ok (check_proof e f p) _ h1 in
      answer_proof-Keeps e f g q (check_proof-Keeps e f p k) h2
