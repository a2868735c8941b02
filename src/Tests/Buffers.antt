-- ===== src/Tests/Buffers.antt =====
-- Packets and network messages.
use necroauth.Prelude.{◌≡◌, [], ◌∷◌, ok, fault, Fault, refl, arith}
use necroauth.Packet.{Packet}
use necroauth.Packet.Append.{Holds}
use necroauth.NetworkMessage.{NetworkMessage, write, of_packet}
use necroauth.NetworkMessage.Contents.{IsValid, contents}
use necroauth.NetworkMessage.Write.{Shows, write-Shows}
use necroauth.NetworkMessage.Wrap.{of_packet_stale}
use necroauth.Tests.Data.{message}

-- Five bytes, of which the first has been read and the last is free.
abbrev half_read : NetworkMessage
half_read = record (message (9 ∷ 8 ∷ 7 ∷ 6 ∷ 0 ∷ [])) { rpos = 1; wpos = 4 }

half_read-IsValid : IsValid half_read
half_read-IsValid = record { ordered = omega arith; inside = omega arith; small = omega arith }

half_read-Shows : Shows (8 ∷ 7 ∷ 6 ∷ []) half_read
unfolding contents
half_read-Shows = record { valid = half_read-IsValid; unread = refl }

write-Shows_example :
    (n : NetworkMessage) × (write half_read (5 ∷ 4 ∷ 3 ∷ []) ≡ ok n)
    × Shows (8 ∷ 7 ∷ 6 ∷ 5 ∷ 4 ∷ 3 ∷ []) n
write-Shows_example = write-Shows (5 ∷ 4 ∷ 3 ∷ []) half_read-Shows (omega arith)

abbrev three : Packet
three = record { rpos = 0; wpos = 3; bytes = 1 ∷ 2 ∷ 3 ∷ []; capacity = 8 }

three-Holds : Holds (1 ∷ 2 ∷ 3 ∷ []) three
three-Holds = record { content = refl; at_end = refl; reserved = omega arith }

of_packet_stale_example : of_packet 0 4 three ≡ fault Fault.out_of_bounds
of_packet_stale_example = of_packet_stale 0 4 three-Holds (omega arith) (omega arith) (omega arith)
