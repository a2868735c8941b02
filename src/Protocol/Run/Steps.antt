-- ===== src/Protocol/Run/Steps.antt =====
-- One packet from each side: sent whole, received, and gone from the queue of its sender.
use necroauth.Prelude.{ℕ, ◌≡◌, List, [], ok, ℤ, refl}
use necroauth.Socket.{Socket, got, receive}
use necroauth.Socket.Idle.{IsIdle}
use necroauth.Socket.Transfer.{Holding, transfer-Emptied}
use necroauth.Server.Session.{Env, Focus}
use necroauth.Server.Poll.{receiver}
use necroauth.Client.Session.{Env as ClientEnv, Session}
use necroauth.Client.Manager.{receiver as client_receiver}
use necroauth.Protocol.Run.{Ends, to_server, to_client}

module _ (fuel : ℕ) (ce : ClientEnv) (se : Env) where
  pub to_server-ok :
      {bs : List ℕ} (x : Ends) (g : Focus) (n : ℤ)
      → Holding bs x.client.socket
      → IsIdle x.client.socket
      → receive (receiver fuel se) x.server (got bs) ≡ ok (g, n)
      → (t : Socket) × (to_server fuel ce se x
          ≡ ok (record { client = record x.client { socket = t }; server = g }))
        × IsIdle t
        × (t.out_queue ≡ [])
  unfolding to_server
  to_server-ok x g n h i k =
      let (t, bytes, e, emptied) = transfer-Emptied h i.live in
      (t, rw (e, bytes, k) refl, emptied.idle i, emptied.empty)

  pub to_client-ok :
      {bs : List ℕ} (x : Ends) (s : Session) (n : ℤ)
      → Holding bs x.server.self.socket
      → IsIdle x.server.self.socket
      → receive (client_receiver fuel ce) x.client (got bs) ≡ ok (s, n)
      → (t : Socket) × (to_client fuel ce se x
          ≡ ok (record {
            client = s;
            server = record x.server { self = record x.server.self { socket = t } };
          }))
        × IsIdle t
        × (t.out_queue ≡ [])
  unfolding to_client
  to_client-ok x s n h i k =
      let (t, bytes, e, emptied) = transfer-Emptied h i.live in
      (t, rw (e, bytes, k) refl, emptied.idle i, emptied.empty)
