-- ===== src/Tests/Whole.antt =====
-- A whole login of the user "bob".
use necroauth.Prelude.{◌≡◌, [], ◌∷◌, some, ok, arith, refl, replicate}
use necroauth.AuthCodes.{SocketStatus}
use necroauth.NetworkMessage.Contents.{contents}
use necroauth.Socket.{Socket}
use necroauth.Server.Session.{avoid_prefix}
use necroauth.Protocol.Run.{Ends, login}
use necroauth.Protocol.Run.Stages.{IsQuiet}
use necroauth.Protocol.Run.Agree.{Start, Agreed, login-Agreed}
use necroauth.Tests.Data.{socket, session, worker, env}
use necroauth.Tests.ClientData.{client_session, client_env}
use necroauth.Tests.Keys.{key, greetcode}

abbrev waiting : Socket
waiting = record (socket [] []) {
  in_buffer = record { rpos = 0; wpos = 0; bytes = replicate 64 0; cipher_bytes = []; tag = [] };
}

abbrev ends : Ends
ends = record {
  client = record (client_session []) { socket = waiting };
  server = record {
    self = record (session [] SocketStatus.gather_info) { socket = waiting };
    worker = worker;
    random = record { prefixes = 5 ∷ 9 ∷ []; keys = key ∷ greetcode ∷ [] };
  };
}

waiting-IsQuiet : IsQuiet waiting
unfolding contents
waiting-IsQuiet = record {
  idle = record {
    opened = refl;
    live = refl;
    nothing = record {
      valid = record { ordered = omega arith; inside = omega arith; small = omega arith };
      unread = refl;
    };
    large = omega arith;
    small = omega arith;
  };
  empty = refl;
}

start : Start client_env env ends 7 (record { prefix = 9; counter = 3 }) key greetcode
unfolding avoid_prefix
start = record {
  client_fresh = record { rpos = refl; wpos = refl };
  server_fresh = record { rpos = refl; wpos = refl };
  client_quiet = waiting-IsQuiet;
  server_quiet = waiting-IsQuiet;
  client_status = refl;
  server_status = refl;
  some_name = omega arith;
  small_name = omega arith;
  some_password = omega arith;
  small_password = omega arith;
  low = omega arith;
  row = refl;
  prefixes = [];
  drawn = refl;
  keys = [];
  keys_lem = refl;
  key_size = refl;
  greetcode_size = refl;
  key_bytes = refl;
  greetcode_bytes = refl;
}

login-Agreed_example :
    (y : Ends) × (login 2 client_env env (some 7) ends ≡ ok y) × Agreed ends y 7 key greetcode
login-Agreed_example =
    login-Agreed 0 client_env env ends 7 (record { prefix = 9; counter = 3 }) key greetcode start
