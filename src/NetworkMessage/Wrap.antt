-- ===== src/NetworkMessage/Wrap.antt =====
-- `NetworkMessage(const Packet& p)`, which leaves both positions as the memory held them.
use necroauth.Prelude.{
  ℕ, ◌<◌, ◌^◌, ◌≡◌, ap, List, [], length, refl, arith, ok, fault, Fault, length-resize, lt→ltb,
}
use mathlib.Core.Path.{subst}
use necroauth.Packet.{Packet, get_content_to_read, size}
use necroauth.Packet.Append.{Holds}
use necroauth.NetworkMessage.{NetworkMessage, of_packet, blank, write, append_at_wpos, store_at}
use necroauth.NetworkMessage.Contents.{contents}
use necroauth.NetworkMessage.Write.{Shows, write-Shows}

length-blank : (r w n : ℕ) → length (blank r w n).bytes ≡ n
unfolding blank
length-blank r w n = length-resize n []

blank-Shows : (n : ℕ) → n < 2 ^ 63 → Shows [] (blank 0 0 n)
unfolding blank contents
blank-Shows n h = record {
  valid = record {
    ordered = omega arith;
    inside = omega arith;
    small = omega (arith, length-resize n []);
  };
  unread = refl;
}

-- With both positions at zero, wrapping a packet of at least one byte and fewer than 2^61 gives a
-- message whose unread bytes are the packet's.
pub of_packet-Shows :
    {bs : List ℕ} {p : Packet}
    → Holds bs p
    → 0 < length bs
    → length bs < 2 ^ 61
    → (m : NetworkMessage) × (of_packet 0 0 p ≡ ok m) × Shows bs m
unfolding of_packet get_content_to_read size
of_packet-Shows {bs} {p} h pos small =
    let (m, e, s) =
      write-Shows p.bytes (blank-Shows n (omega (arith, same)))
        (omega (arith, same, length-blank 0 0 n)) in
    (m, rw (lt→ltb 0 (length p.bytes) (omega (arith, same))) e, subst (λ l. Shows l m) h.content s)
  where
    n : ℕ
    n = length p.bytes

    same : length p.bytes ≡ length bs
    same = ap length h.content

-- With a write position behind the size of a packet that is not empty, below 2^64, wrapping the
-- packet runs out of the vector.
pub of_packet_stale :
    {bs : List ℕ} {p : Packet} (r w : ℕ)
    → Holds bs p
    → 0 < length bs
    → length bs < w
    → w < 2 ^ 64
    → of_packet r w p ≡ fault Fault.out_of_bounds
unfolding of_packet get_content_to_read size write append_at_wpos store_at blank
of_packet_stale {bs} {p} r w h pos k small =
    ground (arith, ap {B = ℕ} length h.content, length-resize (length p.bytes) [])
