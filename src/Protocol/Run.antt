-- ===== src/Protocol/Run.antt =====
-- A whole login: the handlers of both sides in the order in which the two poll loops call them, with
-- each packet sent whole, received whole, and answered before the next.
pub mod Server
pub mod Client
pub mod Reader
pub mod Steps
pub mod Stages
pub mod Agree
use necroauth.Prelude.{ℕ, Option, Result, ok, ◌>>=◌}
use necroauth.Socket.{got, receive}
use necroauth.Socket.Transfer.{front, transfer}
use necroauth.Server.Session.{Env, Focus, db_callback_gather_info}
use necroauth.Server.Poll.{receiver}
use necroauth.Client.Session.{Session, Env as ClientEnv, on_connected}
use necroauth.Client.Manager.{receiver as client_receiver}

-- Both ends of the connection.
pub record Ends : Type 0 where
  pub client : Session
  pub server : Focus

module _ (fuel : ℕ) (ce : ClientEnv) (se : Env) where
  -- The client's packet goes to the server, and the server's to the client.
  unfoldable pub to_server : Ends → Result Ends
  to_server x = do
    b ← transfer x.client.socket
    (f, n) ← receive (receiver fuel se) x.server (got (front x.client.socket.out_queue))
    ok (record { client = record x.client { socket = b }; server = f })

  unfoldable pub to_client : Ends → Result Ends
  to_client x = do
    b ← transfer x.server.self.socket
    (s, n) ← receive (client_receiver fuel ce) x.client (got (front x.server.self.socket.out_queue))
    ok (record {
      client = s;
      server = record x.server { self = record x.server.self { socket = b } };
    })

  -- The database's answer reaches the server.
  unfoldable pub answered : Option ℕ → Ends → Result Ends
  answered row x = do
    s ← db_callback_gather_info se row x.server.self
    ok (record x { server = record x.server { self = s } })

  unfoldable pub login : Option ℕ → Ends → Result Ends
  login row x = do
    c ← on_connected ce x.client
    a ← to_server (record x { client = c })
    b ← answered row a
    d ← to_client b
    f ← to_server d
    to_client f
