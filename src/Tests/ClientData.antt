-- ===== src/Tests/ClientData.antt =====
-- A client session and manager.
use necroauth.Prelude.{ℕ, false, [], ◌∷◌, List, none}
use necroauth.AuthCodes.{SocketStatus}
use necroauth.Client.Session.{Session, Env}
use necroauth.Client.Manager.{AuthManager}
use necroauth.Tests.Data.{socket, password}

abbrev pub client_session : List ℕ → Session
client_session bs = record {
  socket = socket bs [];
  status = SocketStatus.gather_info;
  account = record {
    username = b'b' ∷ b'o' ∷ b'b' ∷ [];
    password = password;
    ip_address = [];
    session_key = [];
    greetcode = [];
    iv = record { prefix = 5; counter = 0 };
    has_authenticated = false;
  };
}

abbrev pub client_env : Env
client_env = record { stale_rpos = 0; stale_wpos = 0; drawn_prefix = 5; local_address = none }

abbrev pub manager : AuthManager
manager = record {
  session = client_session [];
  socket_connected = false;
  is_connecting = false;
  poll_fds = 0;
}
