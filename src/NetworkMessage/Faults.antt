-- ===== src/NetworkMessage/Faults.antt =====
-- How the operations of a `NetworkMessage` fail: only by an access outside of its vector.
use necroauth.Prelude.{
  ℕ, ◌+◌, ◌<◌, ◌==◌, ◌≡◌, inl, inr, ap, true, if-eq, if◌then◌else◌, leb, ltb, lt→ltb, List, length,
  ok, fault, Fault, >>=-eq-fault, arith,
}
use necroauth.Packet
use necroauth.Packet.Append.{Holds}
use necroauth.NetworkMessage.{
  NetworkMessage, read_at, store_at, shift, compact_data, get_active_size, make_room,
  get_remaining_space, append_at_wpos, write, of_packet, blank,
}

read_at-fault :
    (m : NetworkMessage) (p n : ℕ) {x : Fault} → read_at m p n ≡ fault x → x ≡ Fault.out_of_bounds
unfolding read_at
read_at-fault m p n h = elim (if-eq (leb (p + n) (length m.bytes)) h) [
  | inl (_, good) ↦ cc
  | inr (_, bad) ↦ cc
]

store_at-fault :
    (m : NetworkMessage) (p : ℕ) (xs : List ℕ) {x : Fault}
    → store_at m p xs ≡ fault x
    → x ≡ Fault.out_of_bounds
unfolding store_at
store_at-fault m p xs h = elim (if-eq (leb (p + length xs) (length m.bytes)) h) [
  | inl (_, good) ↦ cc
  | inr (_, bad) ↦ cc
]

shift-fault : (m : NetworkMessage) {x : Fault} → shift m ≡ fault x → x ≡ Fault.out_of_bounds
unfolding shift
shift-fault m h = elim (>>=-eq-fault (read_at m m.rpos (get_active_size m)) _ h) [
  | inl bad ↦ read_at-fault m m.rpos (get_active_size m) bad
  | inr (bs, _, bad) ↦ store_at-fault m 0 bs bad
]

compact_data-fault :
    (m : NetworkMessage) {x : Fault} → compact_data m ≡ fault x → x ≡ Fault.out_of_bounds
unfolding compact_data
compact_data-fault m h = elim (if-eq (ltb 0 m.rpos) h) [
  | inr (_, good) ↦ cc
  | inl (_, moves) ↦ elim (if-eq (m.rpos == m.wpos) moves) [
    | inl (_, good) ↦ cc
    | inr (_, copies) ↦ elim (>>=-eq-fault (shift m) _ copies) [
      | inl bad ↦ shift-fault m bad
      | inr (n, _, good) ↦ cc
    ]
  ]
]

make_room-fault :
    (m : NetworkMessage) (n : ℕ) {x : Fault} → make_room m n ≡ fault x → x ≡ Fault.out_of_bounds
unfolding make_room
make_room-fault m n h = elim (>>=-eq-fault (compact_data m) _ h) [
  | inl bad ↦ compact_data-fault m bad
  | inr (c, _, rest) ↦ elim (if-eq (ltb (get_remaining_space c) n) rest) [
    | inl (_, good) ↦ cc
    | inr (_, good) ↦ cc
  ]
]

append_at_wpos-fault :
    (m : NetworkMessage) (xs : List ℕ) {x : Fault}
    → append_at_wpos m xs ≡ fault x
    → x ≡ Fault.out_of_bounds
unfolding append_at_wpos
append_at_wpos-fault m xs h = elim (>>=-eq-fault (store_at m m.wpos xs) _ h) [
  | inl bad ↦ store_at-fault m m.wpos xs bad
  | inr (n, _, good) ↦ cc
]

pub write-fault :
    (m : NetworkMessage) (xs : List ℕ) {x : Fault} → write m xs ≡ fault x → x ≡ Fault.out_of_bounds
unfolding write
write-fault m xs h = elim (if-eq (ltb 0 (length xs)) h) [
  | inr (_, good) ↦ cc
  | inl (_, some) ↦
      elim (>>=-eq-fault
        (if ltb (get_remaining_space m) (length xs) then make_room m (length xs) else ok m) _
        some) [
          | inr (n, _, rest) ↦ append_at_wpos-fault n xs rest
          | inl bad ↦ elim (if-eq (ltb (get_remaining_space m) (length xs)) bad) [
            | inl (_, short) ↦ make_room-fault m (length xs) short
            | inr (_, good) ↦ cc
          ]
        ]
]

-- Wrapping a packet that is not empty.
pub of_packet-fault :
    (r w : ℕ) {bs : List ℕ} {p : Packet.Packet} {x : Fault}
    → Holds bs p
    → 0 < length bs
    → of_packet r w p ≡ fault x
    → x ≡ Fault.out_of_bounds
unfolding of_packet Packet.get_content_to_read
of_packet-fault r w {bs} {p} h pos e =
    let some : ltb 0 (length p.bytes) ≡ true =
      lt→ltb _ _ (omega (arith, ap {B = ℕ} length h.content)) in
    elim (>>=-eq-fault (Packet.get_content_to_read p) _ e) [
      | inl bad ↦ ground arith
      | inr (cs, _, rest) ↦ write-fault (blank r w (Packet.size p)) cs rest
    ]
