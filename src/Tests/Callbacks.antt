-- ===== src/Tests/Callbacks.antt =====
-- A session asks for its account, and its callback fails when the answer is served.
use necroauth.Prelude.{◌≡◌, refl, true, false, [], ◌∷◌, some, ok, of_le, write_at, replicate}
use necroauth.AuthCodes.{SocketStatus}
use necroauth.Database.{prepare, DbRequest, request, bind, Value}
use necroauth.Aes.{Random}
use necroauth.Socket.{
  got, wrote, receive, receive_ready, on_tls, make_ready, store_received, is_open, tls_setup,
}
use necroauth.Server.Session.{Session, handle_gather_info, read_u8, read_u16}
use necroauth.Server.Read.{read_callback, read_round, dispatch, sized, handled, run_handler}
use necroauth.NetworkMessage.{
  read_at, read_completed, write_completed, compact_data, store_at, enlarge_buffer_if_needed,
}
use necroauth.Worker.{enqueue, at_top, pass, finish, get_response_queue, start, idle}
use necroauth.Server.Poll.{
  Manager, Waited, events, quiet, arrived, finished, poll, look, serve, welcome, handshake, clients,
  client, receiver, Polled,
}
use necroauth.Server.Poll.Alive.{Loop, begun, turns, passes, finishes}
use necroauth.Server.Poll.Serve.{Answered, serve_finds}
use necroauth.Server.Session.Greet.{select_id}
use necroauth.Tests.Data.{session, env}

abbrev no_random : Random
no_random = record { prefixes = []; keys = [] }

abbrev guest : Session
guest = record (session [] SocketStatus.gather_info) {
  socket = record (session [] SocketStatus.gather_info).socket {
    in_buffer = record { rpos = 0; wpos = 0; bytes = replicate 16 0; cipher_bytes = []; tag = [] };
  };
}

abbrev first : Manager
first = record { sessions = []; worker = start idle; random = no_random }

abbrev joining : Waited
joining = events (arrived (some (guest, finished ∷ []))) []

joined : (p : Polled) × (poll 5 env [] joining first ≡ ok p)
unfolding poll look serve welcome handshake clients client get_response_queue start idle
joined = (_, refl)

-- The greeting of "bob".
abbrev asking : Waited
asking = events quiet (
    record {
      error = false;
      pollin = true;
      pollout = false;
      to_send = wrote 0;
      to_receive = got (0 ∷ 0 ∷ 7 ∷ 0 ∷ 1 ∷ 0 ∷ 0 ∷ 3 ∷ b'b' ∷ b'o' ∷ b'b' ∷ []);
    }
    ∷ [])

asked : (p : Polled) × (poll 5 env [] asking joined.0.manager ≡ ok p)
unfolding joined poll look serve clients client get_response_queue start idle receiver receive
    receive_ready on_tls make_ready store_received is_open read_callback read_round dispatch sized
    handled run_handler handle_gather_info read_u8 read_u16 read_at enqueue of_le read_completed
    write_completed compact_data store_at enlarge_buffer_if_needed prepare tls_setup write_at
asked = (_, refl)

reached : (m : Manager) × Loop m at_top
unfolding asked joined pass finish enqueue start idle
reached = (
  _,
  finishes _ false
      (passes (turns 5 env [] asking (turns 5 env [] joining (begun no_random) joined.1) asked.1)
        refl)
      refl,
)

-- The request that is in the response queue.
abbrev asked_for : DbRequest
asked_for = record (request false (bind select_id (Value.text (b'b' ∷ b'o' ∷ b'b' ∷ [])))) {
  callback = some 1;
  notice = true;
}

answered : reached.0.worker.resp_queue ≡ asked_for ∷ []
unfolding reached asked joined pass finish enqueue start idle
answered = refl

serve_finds_example : Answered env asked_for (some 7) reached.0.sessions
unfolding serve
serve_finds_example = serve_finds env [] (some 7) [] [] asked_for reached.1 answered refl
