-- ===== src/NetworkMessage.antt =====
-- shared/Packets/NetworkMessage.h: the buffer between a socket and the packets, with a read and a
-- write position. Positions are `size_t`, and their arithmetic wraps.
pub mod Contents
pub mod Write
pub mod Buffer
pub mod Wrap
pub mod Faults
pub mod Crypt
use necroauth.Prelude.{
  ℕ, ◌+◌, ◌/◌, Bool, true, false, List, [], length, if◌then◌else◌, ltb, leb, ◌==◌, Result, ok,
  fault, Fault, ◌>>=◌, add_size, sub_size, resize, write_at, slice, replicate,
}
use necroauth.Packet.{Packet, default_pckt_size}
use necroauth.Packet

pub record NetworkMessage : Type 0 where
  pub rpos : ℕ
  pub wpos : ℕ
  pub bytes : List ℕ
  pub cipher_bytes : List ℕ
  pub tag : List ℕ

-- `GCM_TAG_SIZE`, of Encryption/AES.h.
abbrev pub gcm_tag_size : ℕ
gcm_tag_size = 16

-- `NetworkMessage(size_t reservedSize)`. The tag is written before anything reads it.
unfoldable pub of_reserved_size : ℕ → NetworkMessage
of_reserved_size n = record {
  rpos = 0;
  wpos = 0;
  bytes = resize n [];
  cipher_bytes = [];
  tag = replicate gcm_tag_size 0;
}

-- `NetworkMessage()`
unfoldable pub new : NetworkMessage
unfolding of_reserved_size
new = of_reserved_size default_pckt_size

pub clear : NetworkMessage → NetworkMessage
clear m = record m { rpos = 0; wpos = 0; bytes = [] }

unfoldable pub soft_clear : NetworkMessage → NetworkMessage
soft_clear m = record m { rpos = 0; wpos = 0 }

unfoldable pub size : NetworkMessage → ℕ
size m = length m.bytes

abbrev pub get_active_size : NetworkMessage → ℕ
get_active_size m = sub_size m.wpos m.rpos

abbrev pub get_remaining_space : NetworkMessage → ℕ
get_remaining_space m = sub_size (length m.bytes) m.wpos

unfoldable pub read_completed : NetworkMessage → ℕ → NetworkMessage
read_completed m n = record m { rpos = add_size m.rpos n }

unfoldable pub write_completed : NetworkMessage → ℕ → NetworkMessage
write_completed m n = record m { wpos = add_size m.wpos n }

-- A read of `n` bytes from position `pos` through a pointer into the vector.
unfoldable pub read_at : NetworkMessage → ℕ → ℕ → Result (List ℕ)
read_at m pos n =
    if leb (pos + n) (length m.bytes) then ok (slice m.bytes pos n) else fault Fault.out_of_bounds

-- `memcpy` of these bytes to a position of the vector.
unfoldable pub store_at : NetworkMessage → ℕ → List ℕ → Result NetworkMessage
store_at m pos xs =
    if leb (pos + length xs) (length m.bytes)
    then ok (record m { bytes = write_at m.bytes pos xs })
    else fault Fault.out_of_bounds

-- `memmove(GetBasePointer(), GetReadPointer(), GetActiveSize())`
shift : NetworkMessage → Result NetworkMessage
unfolding read_at store_at
shift m = do unread ← read_at m m.rpos (get_active_size m); store_at m 0 unread

rewind : NetworkMessage → NetworkMessage
rewind m = record m { wpos = sub_size m.wpos m.rpos; rpos = 0 }

unfoldable pub compact_data : NetworkMessage → Result NetworkMessage
unfolding shift rewind
compact_data m =
    if ltb 0 m.rpos
    then (if m.rpos == m.wpos then ok (rewind m) else (shift m >>= λ n. ok (rewind n)))
    else ok m

-- `newSize = Size() + size; newSize += newSize / 2;`
abbrev grown_size : ℕ → ℕ → ℕ
grown_size old n = let sum = add_size old n in add_size sum (sum / 2)

-- "Check if compacting data is enough. If not, we need to resize."
make_room : NetworkMessage → ℕ → Result NetworkMessage
make_room m n = do
  c ← compact_data m
  if ltb (get_remaining_space c) n
      then ok (record c { bytes = resize (grown_size (length c.bytes) n) c.bytes })
      else ok c

-- `memcpy(GetWritePointer(), bytes, size); m_wpos += size;`
unfoldable pub append_at_wpos : NetworkMessage → List ℕ → Result NetworkMessage
unfolding store_at write_completed
append_at_wpos m xs = do n ← store_at m m.wpos xs; ok (write_completed n (length xs))

pub write : NetworkMessage → List ℕ → Result NetworkMessage
unfolding compact_data make_room append_at_wpos
write m xs =
    if ltb 0 (length xs)
    then ((if ltb (get_remaining_space m) (length xs) then make_room m (length xs) else ok m)
        >>= λ n. append_at_wpos n xs)
    else ok m

unfoldable pub enlarge_buffer_if_needed : NetworkMessage → NetworkMessage
enlarge_buffer_if_needed m =
    if get_remaining_space m == 0
    then record m { bytes = resize (add_size (length m.bytes) (length m.bytes / 2)) m.bytes }
    else m

-- `NetworkMessage(const Packet& p)` sets neither position: `r` and `w` are what the memory held.
blank : ℕ → ℕ → ℕ → NetworkMessage
blank r w n = record {
  rpos = r;
  wpos = w;
  bytes = resize n [];
  cipher_bytes = [];
  tag = replicate gcm_tag_size 0;
}

unfoldable pub of_packet : ℕ → ℕ → Packet → Result NetworkMessage
unfolding write Packet.get_content_to_read Packet.size blank
of_packet r w p = do bs ← Packet.get_content_to_read p; write (blank r w (Packet.size p)) bs
