-- ===== src/Protocol/Run/Client.antt =====
-- The client's part of a login: the packets it sends.
use necroauth.Prelude.{
  ℕ, ◌^◌, ◌≤◌, ◌<◌, ◌≡◌, List, length, Option, some, none, ok, ◌>>=◌, arith, refl, ap, ap₂, ◌∙◌,
}
use necroauth.Packet.{Packet}
use necroauth.Packet.Append.{Holds}
use necroauth.NetworkMessage.{NetworkMessage, of_packet}
use necroauth.NetworkMessage.Write.{Shows}
use necroauth.NetworkMessage.Wrap.{of_packet-Shows}
use necroauth.Socket.{queue_packet}
use necroauth.Client.Session.{
  Session, Env, AuthData, with_address, on_connected, greet_packet, post,
}
use necroauth.Client.Session.Packets.{greet_bytes, greet_packet-Builds}

-- New messages start with both positions at zero.
pub record Fresh (e : Env) : Type 0 where
  pub rpos : e.stale_rpos ≡ 0
  pub wpos : e.stale_wpos ≡ 0

abbrev pub queued : Session → NetworkMessage → Session
queued s m = record s { socket = queue_packet s.socket m }

abbrev pub loaded : Session → NetworkMessage → Session
loaded s m = record s { socket = record s.socket { in_buffer = m } }

-- A packet that holds these bytes is posted as a message that shows them.
pub post-Shows :
    {bs : List ℕ} (e : Env) (s : Session) (p : Packet)
    → Fresh e
    → Holds bs p
    → 0 < length bs
    → length bs < 2 ^ 61
    → (m : NetworkMessage) × (post e s p ≡ ok (queued s m)) × Shows bs m
unfolding post
post-Shows e s p z h some_bytes small =
    let (m, k, shows) = of_packet-Shows h some_bytes small in
    (m, rw (ap₂ (λ r w. of_packet r w p) z.rpos z.wpos ∙ k), shows)

-- The session with its local address, which the greeting does not hold.
abbrev pub addressed : Env → Session → Session
addressed e s = record s { account = with_address s.account e.local_address }

with_address-same :
    (a : AuthData) (o : Option (List ℕ))
    → ((with_address a o).username ≡ a.username) × ((with_address a o).password ≡ a.password)
with_address-same a none = (refl, refl)
with_address-same a (some ip) = (refl, refl)

pub addressed-password :
    (e : Env) (s : Session) → (addressed e s).account.password ≡ s.account.password
addressed-password e s = (with_address-same s.account e.local_address).1

pub on_connected-Shows :
    (e : Env) (s : Session)
    → Fresh e
    → 0 < length s.account.username
    → length s.account.username ≤ 16
    → (m : NetworkMessage) × (on_connected e s ≡ ok (queued (addressed e s) m))
      × Shows (greet_bytes s.account.username) m
unfolding on_connected
on_connected-Shows e s z some_name small =
    let (p, k, holds) = greet_packet-Builds s.account.username some_name (omega arith) in
    let (m, posted, shows) = post-Shows e (addressed e s) p z holds (omega arith) (omega arith) in
    let same = (with_address-same s.account e.local_address).0 in
    (
      m,
      ap (λ n. greet_packet n >>= λ p. post e (addressed e s) p) same ∙ rw (k, posted) refl,
      shows,
    )
