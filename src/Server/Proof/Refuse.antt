-- ===== src/Server/Proof/Refuse.antt =====
-- The branch of a wrong password.
use necroauth.Prelude.{◌≡◌, [], ◌∷◌, ok, arith, true, le_bytes}
use necroauth.Packet.{Packet}
use necroauth.Packet.Append.{Holds, put_int-Holds}
use necroauth.Database.{Statement, Value, DbRequest, request, prepare}
use necroauth.Worker.{enqueue}
use necroauth.Server.Session.{Session, Focus}
use necroauth.Server.Proof.{refuse, wrong_password_request, wrong_password}

-- What the log of wrong passwords is to hold: the address, the name, and the reason.
abbrev pub wrong_password_log : Session → DbRequest
wrong_password_log s = request true (record {
  query = Statement.ins_log_wrong_password;
  bound =
      Value.text s.remote_address_and_port
      ∷ Value.text s.account.username
      ∷ Value.text wrong_password
      ∷ [];
})

-- A wrong password is logged, with the address that it came from, and answered by a failure of no
-- further bytes; nothing else changes.
pub refuse-Holds :
    (f : Focus) {p : Packet}
    → Holds (1 ∷ []) p
    → (q : Packet) × (refuse f p
        ≡ ok (record f { worker = enqueue f.worker (wrong_password_log f.self) }, q))
      × Holds (1 ∷ 1 ∷ 0 ∷ 0 ∷ []) q
unfolding refuse wrong_password_request prepare le_bytes
refuse-Holds f {p} h =
    let (q, e, k) = put_int-Holds 1 1 h (omega arith) (omega arith) in
    let (r, e', k') = put_int-Holds 2 0 k (omega arith) (omega arith) in (r, rw (e, e'), k')
