-- ===== src/Server/Session/Reply.antt =====
-- A packet on its way to the client: wrapped in a message and queued.
use necroauth.Prelude.{ℕ, ◌<◌, ◌^◌, ◌≡◌, List, length, ok, ap₂, ◌∙◌}
use necroauth.Packet.{Packet}
use necroauth.Packet.Append.{Holds}
use necroauth.NetworkMessage.{NetworkMessage, of_packet}
use necroauth.NetworkMessage.Write.{Shows}
use necroauth.NetworkMessage.Wrap.{of_packet-Shows}
use necroauth.Socket.{queue_packet}
use necroauth.Server.Session.{Session, Env, reply}

-- New messages start with both positions at zero.
pub record Fresh (e : Env) : Type 0 where
  pub rpos : e.stale_rpos ≡ 0
  pub wpos : e.stale_wpos ≡ 0

abbrev pub queued : Session → NetworkMessage → Session
queued s m = record s { socket = queue_packet s.socket m }

pub reply-Shows :
    {bs : List ℕ} {p : Packet} (e : Env) (s : Session)
    → Fresh e
    → Holds bs p
    → 0 < length bs
    → length bs < 2 ^ 61
    → (m : NetworkMessage) × (reply e s p ≡ ok (queued s m)) × Shows bs m
unfolding reply
reply-Shows {bs} {p} e s z h pos small =
    let (m, k, shows) = of_packet-Shows h pos small in
    (m, rw (ap₂ (λ r w. of_packet r w p) z.rpos z.wpos ∙ k), shows)
