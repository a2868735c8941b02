-- ===== src/Server/Session/Admit.antt =====
-- `DBCallback_AuthLoginGatherInfoPacket`: what the database's answer does to the session.
use necroauth.Prelude.{
  ℕ, ◌%◌, ◌≡◌, ◌++◌, ◌==◌, ◌&&◌, false, Bool-cases, inl, inr, [], ◌∷◌, Option, none, some, ok,
  arith, if◌then◌else◌, le_bytes, ap, refl, ◌∙◌,
}
use mathlib.Core.Path.{subst}
use necroauth.AuthCodes.{SocketStatus, auth_result_code}
use necroauth.Packet.Append.{new-Holds, put_int-Holds}
use necroauth.NetworkMessage.{NetworkMessage}
use necroauth.NetworkMessage.Write.{Shows}
use necroauth.Socket.{queue_packet, update_events}
use necroauth.Server.Session.{
  Session, AccountData, Env, db_callback_gather_info, gather_info_result, admit, version_matches,
}
use necroauth.Server.Session.Reply.{Fresh, queued, reply-Shows}

-- The code of the answer: 1 for an unknown account, 4 for a version other than 1.0.0, else 0.
abbrev pub answer_code : AccountData → Option ℕ → ℕ
answer_code a none = 1
answer_code a (some id) =
    if a.version_major == 1 && (a.version_minor == 0 && a.version_revision == 0) then 0 else 4

gather_info_result-code :
    (a : AccountData) (row : Option ℕ)
    → auth_result_code (gather_info_result a row) ≡ answer_code a row
unfolding gather_info_result
gather_info_result-code a none = refl
gather_info_result-code a (some id) = elim (Bool-cases (version_matches a)) [
  | inl good ↦ rw good refl
  | inr bad ↦ rw bad refl
]

-- The session waits for the proof, under the account's id, exactly when the answer is 0.
pub record Admitted (s t : Session) (row : Option ℕ) (code : ℕ) : Type 0 where
  pub success : code ≡ 0 → t.status ≡ SocketStatus.login_attempt
  pub found : code ≡ 0 → some t.account.account_id ≡ row
  pub failure : (code == 0) ≡ false → (t.status ≡ s.status) × (t.account ≡ s.account)

admit-Admitted :
    (s : Session) (row : Option ℕ) → Admitted s (admit s row) row (answer_code s.account row)
unfolding admit
admit-Admitted s none = ground arith
admit-Admitted s (some id) = ground arith

answer_code-byte : (a : AccountData) (row : Option ℕ) → answer_code a row % 256 ≡ answer_code a row
answer_code-byte a none = refl
answer_code-byte a (some id) = ground arith

admit-socket : (s : Session) (row : Option ℕ) → (admit s row).socket ≡ s.socket
unfolding admit
admit-socket s none = refl
admit-socket s (some id) = ground arith

-- The callback queues its answer on the session that it admits or not.
pub db_callback_gather_info-queued :
    (e : Env) (s : Session) (row : Option ℕ)
    → Fresh e
    → (m : NetworkMessage) × (db_callback_gather_info e row s ≡ ok (queued (admit s row) m))
      × Shows (0 ∷ answer_code s.account row ∷ []) m
unfolding db_callback_gather_info le_bytes
db_callback_gather_info-queued e s row fresh =
    let code = auth_result_code (gather_info_result s.account row) in
    let (p, k, one) = put_int-Holds 1 0 new-Holds (omega arith) (omega arith) in
    let (q, k', two) = put_int-Holds 1 code one (omega arith) (omega arith) in
    let (m, k'', shows) = reply-Shows e (admit s row) fresh two (omega arith) (omega arith) in
    (
      m,
      rw (k, k', k''),
      subst (λ c. Shows (0 ∷ c ∷ []) m)
          (ap (λ c. c % 256) (gather_info_result-code s.account row)
            ∙ answer_code-byte s.account row)
          shows,
    )

-- Where new messages start at position zero, the callback succeeds and queues two bytes, the
-- packet's id and the answer. The answer is 0 for a known account with client version 1.0.0: then
-- the session takes the account's id and waits for the proof. Otherwise its status and account stay
-- as they were.
pub db_callback_gather_info-Admitted :
    (e : Env) (s : Session) (row : Option ℕ)
    → Fresh e
    → (t : Session) × (m : NetworkMessage) × (db_callback_gather_info e row s ≡ ok t)
      × (t.socket.out_queue ≡ s.socket.out_queue ++ m ∷ [])
      × Shows (0 ∷ answer_code s.account row ∷ []) m
      × Admitted s t row (answer_code s.account row)
unfolding queue_packet update_events
db_callback_gather_info-Admitted e s row fresh =
    let (m, k, shows) = db_callback_gather_info-queued e s row fresh in
    let a = admit-Admitted s row in
    (
      queued (admit s row) m,
      m,
      k,
      ap (λ b. b.out_queue ++ m ∷ []) (admit-socket s row),
      shows,
      record { success = a.success; found = a.found; failure = a.failure },
    )
