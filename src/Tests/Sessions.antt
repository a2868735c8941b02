-- ===== src/Tests/Sessions.antt =====
-- The server's handlers, and the client's packets.
use necroauth.Prelude.{
  ℕ, ◌≡◌, ◌≢◌, inl, inr, true, List, [], ◌∷◌, some, ok, refl, arith, sym, of_le, le_bytes, ◌>>=◌,
}
use necroauth.AuthCodes.{SocketStatus}
use necroauth.Aes.{Iv}
use necroauth.NetworkMessage.{NetworkMessage}
use necroauth.NetworkMessage.Contents.{contents}
use necroauth.NetworkMessage.Write.{Shows}
use necroauth.Worker.{enqueue}
use necroauth.Server.Session.{
  Session, Focus, in_buffer, greeted, db_callback_gather_info, avoid_prefix, bytes_eq,
}
use necroauth.Server.Session.Greet.{select_id}
use necroauth.Server.Session.Reply.{Fresh, queued}
use necroauth.Server.Session.Admit.{Admitted, db_callback_gather_info-Admitted}
use necroauth.Server.Proof.{handle_login_proof, check_proof, decide}
use necroauth.Server.Proof.Prefix.{avoid_prefix_ends}
use necroauth.Server.Proof.Refuse.{wrong_password_log}
use necroauth.Server.Proof.Accept.{accepted}
use necroauth.Server.Proof.Outcome.{
  Submitted, client_prefix, handle_login_proof_wrong, handle_login_proof_right,
}
use necroauth.Server.Read.{
  gather_info, read_round, again, consumed, run_handler, handled, leave, closed,
}
use necroauth.Server.Read.Branches.{verdict, act, read_round-verdict}
use mathlib.Core.Path.{subst}
use necroauth.Packet.Append.{Builds}
use necroauth.Client.Session.Packets.{
  greet_bytes, proof_bytes, greet_packet-Builds, proof_packet-Builds,
}
use necroauth.Protocol.Greeting.{Greets, greeting_understood, greeting_sized}
use necroauth.Packet.{new}
use necroauth.Client.Session.{greet_packet, proof_packet}
use necroauth.Protocol.Login.{Proves, proof_sized, proof_checked}
use necroauth.Server.Proof.Outcome.{given_password}
use necroauth.Tests.Data.{focus, env, password}

abbrev bob : List ℕ
bob = b'b' ∷ b'o' ∷ b'b' ∷ []

abbrev greeting : List ℕ
greeting = 0 ∷ 0 ∷ 7 ∷ 0 ∷ 1 ∷ 0 ∷ 0 ∷ 3 ∷ bob

abbrev greeting_focus : Focus
greeting_focus = focus greeting SocketStatus.gather_info

greeting-Shows : Shows greeting (in_buffer greeting_focus)
unfolding contents
greeting-Shows = record {
  valid = record { ordered = omega arith; inside = omega arith; small = omega arith };
  unread = refl;
}

read_round-verdict_example :
    read_round env greeting_focus
    ≡ act env greeting_focus (verdict SocketStatus.gather_info greeting)
read_round-verdict_example = read_round-verdict env greeting_focus greeting-Shows

-- The client's packet.
greeting_built : Builds (greet_bytes bob) (greet_packet bob)
greeting_built = greet_packet-Builds bob (omega arith) (omega arith)

greeting-Greets : Greets bob greeting_built.0 greeting_focus
greeting-Greets = record {
  built = greeting_built.1;
  unread =
      subst (λ bs. Shows bs (in_buffer greeting_focus)) (sym greeting_built.2.content)
        greeting-Shows;
  some_name = omega arith;
  small = omega arith;
}

greeting_understood_example :
    read_round env greeting_focus
    ≡ ok (again (consumed (greeted greeting_focus bob 1 0 0 select_id) 11))
greeting_understood_example =
    greeting_understood env greeting_focus bob greeting_built.0 greeting-Greets refl (omega arith)

greeting_sized_example :
    read_round env greeting_focus
    ≡ (run_handler gather_info env greeting_focus >>= λ r. ok (handled 11 r))
greeting_sized_example = greeting_sized env greeting_focus bob greeting_built.0 greeting-Greets refl

env-Fresh : Fresh env
env-Fresh = record { rpos = refl; wpos = refl }

db_callback_gather_info-Admitted_example :
    (t : Session) × (m : NetworkMessage) × (db_callback_gather_info env (some 7) greeting_focus.self
      ≡ ok t)
    × (t.socket.out_queue ≡ m ∷ [])
    × Shows (0 ∷ 0 ∷ []) m
    × Admitted greeting_focus.self t (some 7) 0
db_callback_gather_info-Admitted_example =
    db_callback_gather_info-Admitted env greeting_focus.self (some 7) env-Fresh

-- The client's prefix is 5, which is also the server's.
abbrev proof : List ℕ
proof = 1 ∷ 0 ∷ 7 ∷ 0 ∷ 5 ∷ 0 ∷ 0 ∷ 0 ∷ 2 ∷ password

abbrev wrong_proof : List ℕ
wrong_proof = 1 ∷ 0 ∷ 6 ∷ 0 ∷ 5 ∷ 0 ∷ 0 ∷ 0 ∷ 1 ∷ b'p' ∷ []

abbrev proof_focus : List ℕ → Focus
proof_focus bs = focus bs SocketStatus.login_attempt

proof-Submitted : Submitted env (proof_focus proof) proof password
unfolding contents of_le
proof-Submitted = record {
  shows = record {
    valid = record { ordered = omega arith; inside = omega arith; small = omega arith };
    unread = refl;
  };
  whole = omega arith;
  row = refl;
  fresh = env-Fresh;
}

wrong_proof-Submitted : Submitted env (proof_focus wrong_proof) wrong_proof password
unfolding contents of_le
wrong_proof-Submitted = record {
  shows = record {
    valid = record { ordered = omega arith; inside = omega arith; small = omega arith };
    unread = refl;
  };
  whole = omega arith;
  row = refl;
  fresh = env-Fresh;
}

differs : password ≢ given_password wrong_proof
unfolding of_le
differs e = ground arith

handle_login_proof_wrong_example :
    (m : NetworkMessage) × (handle_login_proof env (proof_focus wrong_proof)
      ≡ ok (
        record (proof_focus wrong_proof) {
          self = queued (proof_focus wrong_proof).self m;
          worker =
              enqueue
                (proof_focus wrong_proof).worker
                (wrong_password_log (proof_focus wrong_proof).self);
        },
        true,
      ))
    × Shows (1 ∷ 1 ∷ 0 ∷ 0 ∷ []) m
handle_login_proof_wrong_example =
    handle_login_proof_wrong env (proof_focus wrong_proof) wrong_proof password
      wrong_proof-Submitted differs

abbrev drawn_iv : Iv
drawn_iv = record { prefix = 9; counter = 3 }

drawn :
    avoid_prefix
      (client_prefix proof)
      (proof_focus proof).self.account.iv
      (proof_focus proof).random.prefixes
    ≡ ok (drawn_iv, [])
unfolding avoid_prefix of_le
drawn = refl

given : password ≡ given_password proof
unfolding of_le
given = refl

handle_login_proof_right_example :
    (m : NetworkMessage) × (handle_login_proof env (proof_focus proof)
      ≡ ok (
        let g = accepted (proof_focus proof) drawn_iv [] (1 ∷ 2 ∷ []) (3 ∷ 4 ∷ []) [] in
            record g { self = queued g.self m },
        true,
      ))
    × Shows (1 ∷ 0 ∷ 32 ∷ 0 ∷ 1 ∷ 2 ∷ 3 ∷ 4 ∷ []) m
    × (9 ≢ client_prefix proof)
handle_login_proof_right_example =
    handle_login_proof_right env (proof_focus proof) proof password drawn_iv [] (1 ∷ 2 ∷ [])
      (3 ∷ 4 ∷ []) [] proof-Submitted given drawn refl (omega arith)

avoid_prefix_ends_example :
    (r : Iv × List ℕ) × (avoid_prefix 5 (record { prefix = 5; counter = 3 }) (5 ∷ 9 ∷ []) ≡ ok r)
avoid_prefix_ends_example =
    avoid_prefix_ends 5 (record { prefix = 5; counter = 3 }) (5 ∷ 9 ∷ [])
      (inr (inr (inl (omega arith))))

-- A password of 16 bytes.
abbrev long_password : List ℕ
long_password = 1 ∷ 2 ∷ 3 ∷ 4 ∷ 5 ∷ 6 ∷ 7 ∷ 8 ∷ 9 ∷ 10 ∷ 11 ∷ 12 ∷ 13 ∷ 14 ∷ 15 ∷ 16 ∷ []

abbrev long_proof : List ℕ
long_proof = 1 ∷ 0 ∷ 21 ∷ 0 ∷ 5 ∷ 0 ∷ 0 ∷ 0 ∷ 16 ∷ long_password

long_proof-Shows : Shows long_proof (in_buffer (proof_focus long_proof))
unfolding contents
long_proof-Shows = record {
  valid = record { ordered = omega arith; inside = omega arith; small = omega arith };
  unread = refl;
}

long_proof_built : Builds (proof_bytes 5 long_password) (proof_packet 5 long_password)
long_proof_built = proof_packet-Builds 5 long_password (omega arith) (omega arith)

long_proof-Proves : Proves 5 long_password long_proof_built.0 (proof_focus long_proof)
unfolding le_bytes
long_proof-Proves = record {
  built = long_proof_built.1;
  unread =
      subst (λ bs. Shows bs (in_buffer (proof_focus long_proof))) (sym long_proof_built.2.content)
        long_proof-Shows;
  some_password = omega arith;
  small = omega arith;
}

proof_sized_example :
    read_round env (proof_focus long_proof) ≡ ok (leave (closed (proof_focus long_proof)))
proof_sized_example =
    proof_sized env (proof_focus long_proof) 5 long_password long_proof_built.0 long_proof-Proves
      refl

proof_built : Builds (proof_bytes 5 password) (proof_packet 5 password)
proof_built = proof_packet-Builds 5 password (omega arith) (omega arith)

proof-Proves : Proves 5 password proof_built.0 (proof_focus proof)
unfolding le_bytes
proof-Proves = record {
  built = proof_built.1;
  unread =
      subst (λ bs. Shows bs (in_buffer (proof_focus proof))) (sym proof_built.2.content)
        proof-Submitted.shows;
  some_password = omega arith;
  small = omega arith;
}

proof_checked_example :
    check_proof env (proof_focus proof) new
    ≡ decide (bytes_eq password password) (proof_focus proof) 5 new
proof_checked_example =
    proof_checked env (proof_focus proof) 5 password password proof_built.0 new proof-Proves
      (omega arith) refl
