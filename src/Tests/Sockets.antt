-- ===== src/Tests/Sockets.antt =====
-- Sockets, the worker, the client's manager and the server's turn.
use necroauth.Prelude.{ℕ, ◌≡◌, ◌≤◌, false, [], ◌∷◌, length, ok, ◌>>=◌, pos, refl, arith}
use necroauth.NetworkMessage.{
  NetworkMessage, get_remaining_space, compact_data, enlarge_buffer_if_needed,
}
use necroauth.NetworkMessage.Contents.{contents}
use necroauth.NetworkMessage.Write.{Shows}
use necroauth.Socket.{Socket, wrote, got, Derived, queue_packet, send, receive, make_ready}
use necroauth.Socket.Send.{Sends, queue_packet-Sends, send-Sends}
use necroauth.Socket.Receive.{Buffers, receive-got}
use necroauth.Worker.{pass, stop, start, idle}
use necroauth.Worker.Fifo.{boot, stops, Reach, booted, next, Inv, Reach-Inv, exit_drained, executed}
use necroauth.Tests.Data.{message, socket}

short-Shows : Shows (1 ∷ 2 ∷ []) (message (1 ∷ 2 ∷ []))
unfolding contents
short-Shows = record {
  valid = record { ordered = omega arith; inside = omega arith; small = omega arith };
  unread = refl;
}

long-Shows : Shows (3 ∷ 4 ∷ 5 ∷ []) (message (3 ∷ 4 ∷ 5 ∷ []))
unfolding contents
long-Shows = record {
  valid = record { ordered = omega arith; inside = omega arith; small = omega arith };
  unread = refl;
}

abbrev sending : Socket
sending = socket [] (message (1 ∷ 2 ∷ []) ∷ [])

sending-Sends : Sends (1 ∷ 2 ∷ []) sending
unfolding contents
sending-Sends = record { valid = (short-Shows.valid, tt); stream = refl; polls = (refl, refl) }

queue_packet-Sends_example :
    Sends (1 ∷ 2 ∷ 3 ∷ 4 ∷ 5 ∷ []) (queue_packet sending (message (3 ∷ 4 ∷ 5 ∷ [])))
queue_packet-Sends_example = queue_packet-Sends sending-Sends long-Shows

send-Sends_example : (t : Socket) × (send sending (wrote 1) ≡ ok (t, pos 1)) × Sends (2 ∷ []) t
unfolding contents
send-Sends_example = send-Sends (message (1 ∷ 2 ∷ [])) [] 1 sending-Sends refl (omega arith) refl

-- A socket with no handler of its own.
abbrev plain : Derived Socket
plain = record {
  base = λ b. b;
  with_base = λ s b. b;
  base-with_base = λ s b. refl;
  read_callback = λ b. ok b;
}

abbrev reading : Socket
reading = record (socket [] []) {
  in_buffer = record (message (1 ∷ 2 ∷ 0 ∷ 0 ∷ 0 ∷ [])) { wpos = 2 };
}

reading-Buffers : Buffers (1 ∷ 2 ∷ []) reading
unfolding contents
reading-Buffers = (
  record {
    valid = record { ordered = omega arith; inside = omega arith; small = omega arith };
    unread = refl;
  },
  omega arith,
)

reading-room :
    (r : Socket)
    → make_ready reading ≡ ok r
    → length {A = ℕ} (7 ∷ 8 ∷ []) ≤ get_remaining_space r.in_buffer
unfolding make_ready compact_data enlarge_buffer_if_needed
reading-room r e = ground arith

receive-got_example :
    (m : NetworkMessage) × Shows (1 ∷ 2 ∷ 7 ∷ 8 ∷ []) m
    × (receive plain reading (got (7 ∷ 8 ∷ []))
        ≡ (plain.read_callback (record reading { in_buffer = m }) >>= λ s'. ok (s', pos 2)))
receive-got_example = receive-got plain reading (7 ∷ 8 ∷ []) refl refl reading-Buffers reading-room

-- A worker that is stopped at once.
stopped : Reach (record boot { worker = stop boot.worker })
stopped = next booted stops

Reach-Inv_example : Inv (record boot { worker = stop boot.worker })
Reach-Inv_example = Reach-Inv stopped

exit_drained_example :
    ((stop boot.worker).running ≡ false) × (boot.enqueued ≡ executed boot.finished)
unfolding boot stop pass start idle
exit_drained_example = exit_drained stopped refl refl
