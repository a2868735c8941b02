-- ===== src/Tests/Loops.antt =====
-- The loops: `ReadCallback`, the server's turn and the client's.
use necroauth.Prelude.{
  ℕ, zero, suc, ◌+◌, ◌≡◌, true, List, [], ◌∷◌, length, some, none, Result, ok, refl, arith, of_le,
  pos, negsuc,
}
use necroauth.AuthCodes.{SocketStatus}
use necroauth.NetworkMessage.Contents.{contents}
use necroauth.NetworkMessage.Write.{Shows}
use necroauth.Server.Session.{Focus, in_buffer}
use necroauth.Server.Read.{read_callback}
use necroauth.Server.Read.Total.{NoZeroSize, read_callback_returns}
use necroauth.Server.Read.Hang.{Wrapping, read_callback_hangs}
use necroauth.Server.Poll.{
  Manager, Waited, events, arrived, finished, again, poll, look, serve, welcome, handshake, clients,
  Polled, connected,
}
use necroauth.Server.Poll.Keeps.{poll-keeps, joined}
use necroauth.Worker.{get_response_queue}
use necroauth.Client.Manager.{
  AuthManager, connect_to_auth_server, network_update, on_disconnect, unable,
}
use necroauth.Client.Manager.States.{
  IsValid, IsDisconnected, command, made, more, Reach-IsValid, network_update-failed,
}
use necroauth.Tests.Data.{session, focus, env, worker}
use necroauth.Tests.ClientData.{client_env, manager}

abbrev greeting : List ℕ
greeting = 0 ∷ 0 ∷ 7 ∷ 0 ∷ 1 ∷ 0 ∷ 0 ∷ 3 ∷ b'b' ∷ b'o' ∷ b'b' ∷ []

abbrev greeting_focus : Focus
greeting_focus = focus greeting SocketStatus.gather_info

greeting-Shows : Shows greeting (in_buffer greeting_focus)
unfolding contents
greeting-Shows = record {
  valid = record { ordered = omega arith; inside = omega arith; small = omega arith };
  unread = refl;
}

greeting-NoZeroSize : NoZeroSize greeting
unfolding of_le
greeting-NoZeroSize zero h e = ground arith
greeting-NoZeroSize (suc zero) h e = ground arith
greeting-NoZeroSize (suc (suc zero)) h e = ground arith
greeting-NoZeroSize (suc (suc (suc zero))) h e = ground arith
greeting-NoZeroSize (suc (suc (suc (suc zero)))) h e = ground arith
greeting-NoZeroSize (suc (suc (suc (suc (suc zero))))) h e = ground arith
greeting-NoZeroSize (suc (suc (suc (suc (suc (suc zero)))))) h e = ground arith
greeting-NoZeroSize (suc (suc (suc (suc (suc (suc (suc zero))))))) h e = ground arith
greeting-NoZeroSize (suc (suc (suc (suc (suc (suc (suc (suc k)))))))) h e =
    absurd (omega (arith, h))

read_callback_returns_example : (r : Result Focus) × (read_callback 12 env greeting_focus ≡ some r)
read_callback_returns_example =
    read_callback_returns 12 env greeting_focus greeting greeting-Shows greeting-NoZeroSize
      (omega arith)

abbrev wrapping_rest : List ℕ
wrapping_rest = 1 ∷ 0 ∷ 0 ∷ 3 ∷ b'b' ∷ b'o' ∷ b'b' ∷ []

abbrev wrapping_focus : Focus
wrapping_focus = focus (0 ∷ 0 ∷ 252 ∷ 255 ∷ wrapping_rest) SocketStatus.gather_info

wrapping_focus-Wrapping : Wrapping wrapping_rest wrapping_focus
unfolding contents of_le
wrapping_focus-Wrapping = record {
  shows = record {
    valid = record { ordered = omega arith; inside = omega arith; small = omega arith };
    unread = refl;
  };
  name = omega arith;
  status = refl;
}

read_callback_hangs_example : read_callback 1000 env wrapping_focus ≡ none
read_callback_hangs_example =
    read_callback_hangs 1000 wrapping_rest env wrapping_focus wrapping_focus-Wrapping

-- A connection joins a server without any.
abbrev empty_manager : Manager
empty_manager = record {
  sessions = [];
  worker = worker;
  random = (focus [] SocketStatus.gather_info).random;
}

abbrev joining : Waited
joining = events (arrived (some (session [] SocketStatus.gather_info, again ∷ finished ∷ []))) []

abbrev joined_manager : Manager
joined_manager = record empty_manager {
  sessions = connected (session [] SocketStatus.gather_info) ∷ [];
}

abbrev after_turn : Polled
after_turn = record { manager = joined_manager; to_remove = []; code = pos 0 }

turn : poll 5 env [] joining empty_manager ≡ ok after_turn
unfolding poll get_response_queue look serve welcome handshake clients
turn = refl

poll-keeps_example : length after_turn.manager.sessions ≡ 0 + joined joining
poll-keeps_example = poll-keeps 5 env [] joining empty_manager after_turn turn

manager-IsDisconnected : IsDisconnected manager
manager-IsDisconnected = record {
  not_connecting = refl;
  not_connected = refl;
  no_polls = refl;
  fresh_queue = refl;
  fresh_status = refl;
}

abbrev connecting : AuthManager
connecting = record manager { is_connecting = true; poll_fds = 1 }

Reach-IsValid_example : IsValid (connect_to_auth_server none true manager).0
Reach-IsValid_example =
    Reach-IsValid (more (made manager-IsDisconnected) (command none true manager))

turn_fails :
    network_update 5 client_env none unable connecting
    ≡ ok (on_disconnect none connecting, negsuc 0)
unfolding network_update
turn_fails = refl

network_update-failed_example : IsDisconnected (on_disconnect none connecting)
network_update-failed_example =
    network_update-failed 5 client_env none unable connecting (on_disconnect none connecting)
      (negsuc 0) turn_fails refl
