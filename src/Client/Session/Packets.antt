-- ===== src/Client/Session/Packets.antt =====
-- The bytes of the client's two packets.
use necroauth.Prelude.{
  ℕ, ◌+◌, ◌-◌, ◌<◌, ◌/◌, ◌%◌, ◌^◌, List, ◌∷◌, ◌++◌, length, le_bytes, arith, ◌≡◌, Result, ok,
}
use necroauth.Packet.{Packet, put_string}
use necroauth.Packet.Append.{Builds, new-Holds, put_int-Holds, append-Holds}
use necroauth.Client.Session.{greet_packet, proof_packet}

-- Code 0, no error, the size of the rest, version 1.0.0, and the name behind its length.
abbrev pub greet_bytes : List ℕ → List ℕ
greet_bytes name =
    let n = length name % 256 in
    let size = 9 - 4 + n - 1 in 0 ∷ 0 ∷ size % 256 ∷ size / 256 % 256 ∷ 1 ∷ 0 ∷ 0 ∷ n % 256 ∷ name

-- Code 1, no error, the size of the rest, the prefix, and the password behind its length.
abbrev pub proof_bytes : ℕ → List ℕ → List ℕ
proof_bytes prefix password =
    let n = length password % 256 in
    let size = 10 - 4 + n - 1 in
    1 ∷ 0 ∷ size % 256 ∷ size / 256 % 256 ∷ le_bytes 4 prefix ++ n % 256 ∷ password

-- For a username of at least one byte and fewer than 2^32, the greet packet is built and holds the
-- bytes that the protocol wants.
pub greet_packet-Builds :
    (name : List ℕ)
    → 0 < length name
    → length name < 2 ^ 32
    → Builds (greet_bytes name) (greet_packet name)
unfolding greet_packet le_bytes put_string
greet_packet-Builds name some_name small =
    let n = length name % 256 in
    let (a, ea, ha) = put_int-Holds 1 0 new-Holds (omega arith) (omega arith) in
    let (b, eb, hb) = put_int-Holds 1 0 ha (omega arith) (omega arith) in
    let (c, ec, hc) = put_int-Holds 2 (9 - 4 + n - 1) hb (omega arith) (omega arith) in
    let (d, ed, hd) = put_int-Holds 1 1 hc (omega arith) (omega arith) in
    let (f, ef, hf) = put_int-Holds 1 0 hd (omega arith) (omega arith) in
    let (g, eg, hg) = put_int-Holds 1 0 hf (omega arith) (omega arith) in
    let (h, eh, hh) = put_int-Holds 1 n hg (omega arith) (omega arith) in
    let (p, ep, hp) = append-Holds name hh some_name (omega arith) in
    (p, rw (ea, eb, ec, ed, ef, eg, eh, ep), hp)

-- For a password of at least one byte and fewer than 2^32, the proof packet is built and holds the
-- bytes that the protocol wants.
pub proof_packet-Builds :
    (prefix : ℕ) (password : List ℕ)
    → 0 < length password
    → length password < 2 ^ 32
    → Builds (proof_bytes prefix password) (proof_packet prefix password)
unfolding proof_packet le_bytes put_string
proof_packet-Builds prefix password some_password small =
    let n = length password % 256 in
    let (a, ea, ha) = put_int-Holds 1 1 new-Holds (omega arith) (omega arith) in
    let (b, eb, hb) = put_int-Holds 1 0 ha (omega arith) (omega arith) in
    let (c, ec, hc) = put_int-Holds 2 (10 - 4 + n - 1) hb (omega arith) (omega arith) in
    let (d, ed, hd) = put_int-Holds 4 prefix hc (omega arith) (omega arith) in
    let (f, ef, hf) = put_int-Holds 1 n hd (omega arith) (omega arith) in
    let (p, ep, hp) = append-Holds password hf some_password (omega arith) in
    (p, rw (ea, eb, ec, ed, ef, ep), hp)

-- A packet that is built so has these bytes.
pub Builds-bytes :
    {bs : List ℕ} {r : Result Packet} {p : Packet} → Builds bs r → r ≡ ok p → p.bytes ≡ bs
Builds-bytes (q, made, holds) e = cc (made, e, holds.content)
