-- ===== src/Tests/Data.antt =====
-- Small sessions, sockets and packets.
use necroauth.Prelude.{ℕ, true, false, List, [], ◌∷◌, length, none, some, ◌==◌, if◌then◌else◌}
use necroauth.Database.Connection.{Executed}
use necroauth.AuthCodes.{SocketStatus}
use necroauth.NetworkMessage.{NetworkMessage}
use necroauth.Socket.{Socket}
use necroauth.Worker.{Worker}
use necroauth.Server.Session.{AccountData, Session, Env, Focus}

-- A buffer that holds these bytes, none of them read.
abbrev pub message : List ℕ → NetworkMessage
message bs = record { rpos = 0; wpos = length bs; bytes = bs; cipher_bytes = []; tag = [] }

abbrev pub socket : List ℕ → List NetworkMessage → Socket
socket bs queue = record {
  in_buffer = message bs;
  out_queue = queue;
  closed = false;
  uses_tls = true;
  ssl = true;
  pfd = some (record { pollin = true; pollout = if length queue == 0 then false else true });
  closesocket_calls = 0;
}

abbrev pub account : AccountData
account = record {
  username = b'b' ∷ b'o' ∷ b'b' ∷ [];
  account_id = 7;
  session_key = [];
  iv = record { prefix = 5; counter = 3 };
  version_major = 1;
  version_minor = 0;
  version_revision = 0;
}

abbrev pub session : List ℕ → SocketStatus → Session
session bs status = record {
  this = 1;
  socket = socket bs [];
  account = account;
  status = status;
  remote_address = b'h' ∷ [];
  remote_address_and_port = b'h' ∷ b':' ∷ b'1' ∷ [];
}

abbrev pub worker : Worker
worker = record {
  running = true;
  exec_queue = [];
  exec_queue_size = 0;
  resp_queue = [];
  notified = false;
}

abbrev pub focus : List ℕ → SocketStatus → Focus
focus bs status = record {
  self = session bs status;
  worker = worker;
  random = record { prefixes = 5 ∷ 9 ∷ []; keys = (1 ∷ 2 ∷ []) ∷ (3 ∷ 4 ∷ []) ∷ [] };
}

-- The account 7 has the password "pw".
abbrev pub password : List ℕ
password = b'p' ∷ b'w' ∷ []

abbrev pub env : Env
env = record {
  stale_rpos = 0;
  stale_wpos = 0;
  password_row = λ id. Executed.rows (if id == 7 then some password else none);
}
