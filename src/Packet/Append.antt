-- ===== src/Packet/Append.antt =====
-- What `Packet::Append` does to the bytes of a packet.
use necroauth.Prelude.{
  ℕ, ◌+◌, ◌≡◌, ◌≤◌, ◌<◌, ◌^◌, refl, List, [], ◌++◌, length, arith, Result, ok, fault, Fault,
  add_size, resize, write_at, lt→ltb, ap, ap₂, ◌∙◌, length-resize, length-append, le_bytes,
  length-le_bytes, write_at-resize_end,
}
use necroauth.Packet.{Packet, new, of_reserved_size, append, grow, copy_in, put_int}

-- A packet with exactly these bytes written, and nothing read.
pub record Holds (bs : List ℕ) (p : Packet) : Type 0 where
  pub content : p.bytes ≡ bs
  pub at_end : p.wpos ≡ length bs
  pub reserved : length bs ≤ p.capacity

-- The call succeeds with a packet that holds these bytes.
abbrev pub Builds : List ℕ → Result Packet → Type 0
Builds bs r = (p : Packet) × (r ≡ ok p) × Holds bs p

pub new-Holds : Holds [] new
unfolding new of_reserved_size
new-Holds = record { content = refl; at_end = refl; reserved = omega arith }

grow-bytes : (p : Packet) (n : ℕ) → length p.bytes < n → (grow p n).bytes ≡ resize n p.bytes
unfolding grow
grow-bytes p n h = ground arith

le-grow-capacity : (p : Packet) (n : ℕ) → n < 2 ^ 62 → n ≤ (grow p n).capacity
unfolding grow
le-grow-capacity p n h = ground arith

copy_in_lem :
    (p : Packet) (src : List ℕ) (n : ℕ)
    → p.wpos < length p.bytes
    → copy_in p src n ≡ ok (record p { bytes = write_at p.bytes p.wpos src; wpos = n })
unfolding copy_in
copy_in_lem p src n h = rw (lt→ltb p.wpos (length p.bytes) h)

-- Appending at least one byte to a packet in which only Append has written puts the bytes at its
-- end, within the capacity, if the sizes stay below 2^62.
pub append-Holds :
    {bs : List ℕ} {p : Packet} (src : List ℕ)
    → Holds bs p
    → 0 < length src
    → length bs + length src < 2 ^ 62
    → Builds (bs ++ src) (append p src)
unfolding append
append-Holds {bs} {p} src h pos small = (
  record g { bytes = write_at g.bytes p.wpos src; wpos = n },
  copy_in_lem g src n room,
  record {
    content = ap₂ (λ b k. write_at b k src) grown h.at_end ∙ write_at-resize_end bs src n size;
    at_end = omega (arith, size, length-append bs src);
    reserved =
        omega (arith, size, length-append bs src, le-grow-capacity p n (omega (arith, size)));
  },
)
  where
    n : ℕ
    n = add_size p.wpos (length src)

    g : Packet
    g = grow p n

    size : n ≡ length bs + length src
    size = omega (arith, h.at_end)

    grown : g.bytes ≡ resize n bs
    grown = rw (← h.content) (grow-bytes p n (omega (arith, size, ap {B = ℕ} length h.content)))

    room : p.wpos < length g.bytes
    room = omega (arith, size, h.at_end, ap {B = ℕ} length grown, length-resize n bs)

-- An empty source indexes the element past the end of the vector.
pub append_nothing :
    {bs : List ℕ} {p : Packet}
    → Holds bs p
    → length bs < 2 ^ 62
    → append p [] ≡ fault Fault.out_of_bounds
unfolding append
append_nothing {bs} {p} h small = ground arith

-- `operator<<` on an integer of `w` bytes.
pub put_int-Holds :
    {bs : List ℕ} {p : Packet} (w v : ℕ)
    → Holds bs p
    → 0 < w
    → length bs + w < 2 ^ 62
    → Builds (bs ++ le_bytes w v) (put_int w v p)
unfolding put_int
put_int-Holds {bs} {p} w v h pos small =
    append-Holds (le_bytes w v) h (omega (arith, length-le_bytes w v))
      (omega (arith, length-le_bytes w v))
