-- ===== src/Protocol/Greeting.antt =====
-- The client's greeting at the server.
use necroauth.Prelude.{
  ℕ, ◌+◌, ◌≤◌, ◌<◌, ◌≡◌, ◌%◌, ◌^◌, List, length, ok, ◌>>=◌, of_le, arith, ltb, if◌then◌else◌, ap,
  ◌∙◌, Bool, true, false, refl, slice, take_all, le→ltb,
}
use necroauth.AuthCodes.{SocketStatus}
use necroauth.NetworkMessage.Write.{Shows}
use mathlib.Core.Path.{subst}
use necroauth.Packet.{Packet}
use necroauth.Client.Session.{greet_packet}
use necroauth.Client.Session.Packets.{greet_bytes, greet_packet-Builds, Builds-bytes}
use necroauth.Server.Session.{Focus, Env, in_buffer, greeted}
use necroauth.Server.Session.Greet.{byte_at, handle_gather_info-greeted, select_id}
use necroauth.Server.Read.{
  gather_info, again, leave, closed, read_round, handled, run_handler, consumed,
}
use necroauth.Server.Read.Branches.{
  oversized, deliver, verdict, size_field, act, read_round-verdict,
}

greet_size :
    (name : List ℕ)
    → length name < 256
    → (4 + size_field (greet_bytes name)) % 2 ^ 16 ≡ 8 + length name
unfolding of_le
greet_size name h = omega arith

-- The server that expects a greeting takes that of a name of at most 16 bytes as one packet, of
-- eight bytes and the name; that of a longer name, up to 255 bytes, is too large for it.
pub verdict-greet_bytes :
    (name : List ℕ)
    → length name < 256
    → verdict SocketStatus.gather_info (greet_bytes name)
      ≡ (if ltb 16 (length name) then oversized else deliver gather_info (8 + length name))
unfolding of_le
verdict-greet_bytes name h = ground (arith, greet_size name h)

greet_name :
    (name : List ℕ)
    → length name < 256
    → slice (greet_bytes name) 8 (byte_at (greet_bytes name) 7) ≡ name
unfolding of_le
greet_name name h = take_all (byte_at (greet_bytes name) 7) name (omega arith)

-- If the unread bytes are the greeting of a name of at most 16 bytes and a greeting is expected,
-- the server reads back the name and version 1.0.0 in one round, asks for the account of that name,
-- and consumes the packet.
pub greeting_accepted :
    (e : Env) (f : Focus) (name : List ℕ)
    → Shows (greet_bytes name) (in_buffer f)
    → f.self.status ≡ SocketStatus.gather_info
    → length name ≤ 16
    → read_round e f ≡ ok (again (consumed (greeted f name 1 0 0 select_id) (8 + length name)))
unfolding run_handler handled of_le
greeting_accepted e f name s state h =
    read_round-verdict e f s
    ∙ ap (λ t. act e f (verdict t (greet_bytes name))) state
    ∙ ap (act e f) (verdict-greet_bytes name (omega arith))
    ∙ ap (λ b. act e f (if b then oversized else deliver gather_info (8 + length name)))
        (le→ltb 16 (length name) h)
    ∙ ap (λ r. r >>= λ r. ok (handled (8 + length name) r))
        (handle_gather_info-greeted f s (omega arith))
    ∙ ap (λ l. ok (again (consumed (greeted f l 1 0 0 select_id) (8 + length name))))
        (greet_name name (omega arith))

-- The unread bytes are those of the client's greeting of this name.
pub record Greets (name : List ℕ) (p : Packet) (f : Focus) : Type 0 where
  pub built : greet_packet name ≡ ok p
  pub unread : Shows p.bytes (in_buffer f)
  pub some_name : 0 < length name
  pub small : length name < 256

Greets-Shows :
    {name : List ℕ} {p : Packet} {f : Focus}
    → Greets name p f
    → Shows (greet_bytes name) (in_buffer f)
Greets-Shows {name} {p} {f} g =
    subst (λ bs. Shows bs (in_buffer f))
      (Builds-bytes (greet_packet-Builds name g.some_name (omega (arith, g.small))) g.built)
      g.unread

-- Where the unread bytes are the packet that the client builds for a name of 1 to 16 bytes, and the
-- server expects a greeting, one round of its loop reads back the name and version 1.0.0, asks for
-- the account of that name, and consumes the packet.
pub greeting_understood :
    (e : Env) (f : Focus) (name : List ℕ) (p : Packet)
    → Greets name p f
    → f.self.status ≡ SocketStatus.gather_info
    → length name ≤ 16
    → read_round e f ≡ ok (again (consumed (greeted f name 1 0 0 select_id) (8 + length name)))
greeting_understood e f name p g state h = greeting_accepted e f name (Greets-Shows g) state h

act-if :
    (e : Env) (f : Focus) (n : ℕ) (large : Bool)
    → act e f (if large then oversized else deliver gather_info n) ≡ (
        if large
        then ok (leave (closed f))
        else (run_handler gather_info e f >>= λ r. ok (handled n r)))
act-if e f n true = refl
act-if e f n false = refl

-- Where the unread bytes are the packet that the client builds for a name of 1 to 255 bytes, and the
-- server expects a greeting, one round of its loop closes the connection if the name has more than
-- 16 bytes, and else hands the greeting to its handler as one packet, of eight bytes and the name.
pub greeting_sized :
    (e : Env) (f : Focus) (name : List ℕ) (p : Packet)
    → Greets name p f
    → f.self.status ≡ SocketStatus.gather_info
    → read_round e f ≡ (
        if ltb 16 (length name)
        then ok (leave (closed f))
        else (run_handler gather_info e f >>= λ r. ok (handled (8 + length name) r)))
greeting_sized e f name p g state =
    read_round-verdict e f (Greets-Shows g)
    ∙ ap (λ t. act e f (verdict t (greet_bytes name))) state
    ∙ ap (act e f) (verdict-greet_bytes name g.small)
    ∙ act-if e f (8 + length name) (ltb 16 (length name))
