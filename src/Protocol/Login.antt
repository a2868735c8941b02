-- ===== src/Protocol/Login.antt =====
-- The client's proof at the server.
use necroauth.Prelude.{
  ℕ, ◌+◌, ◌<◌, ◌≡◌, ◌%◌, ◌^◌, List, length, le_bytes, of_le, arith, ltb, if◌then◌else◌, take_all,
  ok, some, ◌>>=◌, Bool, true, false, refl, ap, ap₂, ◌∙◌,
}
use necroauth.Database.Connection.{Executed}
use necroauth.AuthCodes.{SocketStatus}
use mathlib.Core.Path.{subst}
use necroauth.Packet.{Packet}
use necroauth.NetworkMessage.Write.{Shows}
use necroauth.Client.Session.{proof_packet}
use necroauth.Client.Session.Packets.{proof_bytes, proof_packet-Builds, Builds-bytes}
use necroauth.Server.Session.{Focus, Env, in_buffer, bytes_eq}
use necroauth.Server.Proof.{check_proof, decide}
use necroauth.Server.Session.Greet.{byte_at}
use necroauth.Server.Proof.Outcome.{given_password, client_prefix, check_proof_lem}
use necroauth.Server.Read.{login_proof, read_round, leave, closed, run_handler, handled}
use necroauth.Server.Read.Branches.{
  oversized, deliver, verdict, size_field, act, read_round-verdict,
}

proof_size :
    (prefix : ℕ) (password : List ℕ)
    → length password < 256
    → (4 + size_field (proof_bytes prefix password)) % 2 ^ 16 ≡ 9 + length password
unfolding of_le le_bytes
proof_size prefix password h = omega arith

-- The server that expects a proof takes one with a password of at most 15 bytes as one packet, of
-- nine bytes and the password; one with a longer password, up to 255 bytes, is too large for it.
pub verdict-proof_bytes :
    (prefix : ℕ) (password : List ℕ)
    → length password < 256
    → verdict SocketStatus.login_attempt (proof_bytes prefix password)
      ≡ (if ltb 15 (length password) then oversized else deliver login_proof (9 + length password))
unfolding of_le le_bytes
verdict-proof_bytes prefix password h = ground (arith, proof_size prefix password h)

-- The server reads back the password, of fewer than 256 bytes, and the prefix, of 32 bits, that the
-- client put into its proof.
pub proof_read_back :
    (prefix : ℕ) (password : List ℕ)
    → length password < 256
    → prefix < 2 ^ 32
    → (given_password (proof_bytes prefix password) ≡ password)
      × (client_prefix (proof_bytes prefix password) ≡ prefix)
unfolding of_le le_bytes
proof_read_back prefix password h k =
    (take_all (byte_at (proof_bytes prefix password) 8) password (omega arith), omega arith)

-- The unread bytes are those of the client's proof with this prefix and password.
pub record Proves (prefix : ℕ) (password : List ℕ) (p : Packet) (f : Focus) : Type 0 where
  pub built : proof_packet prefix password ≡ ok p
  pub unread : Shows p.bytes (in_buffer f)
  pub some_password : 0 < length password
  pub small : length password < 256

Proves-Shows :
    {prefix : ℕ} {password : List ℕ} {p : Packet} {f : Focus}
    → Proves prefix password p f
    → Shows (proof_bytes prefix password) (in_buffer f)
Proves-Shows {prefix} {password} {p} {f} g =
    subst (λ bs. Shows bs (in_buffer f))
      (Builds-bytes (proof_packet-Builds prefix password g.some_password (omega (arith, g.small)))
        g.built)
      g.unread

act-if :
    (e : Env) (f : Focus) (n : ℕ) (large : Bool)
    → act e f (if large then oversized else deliver login_proof n) ≡ (
        if large
        then ok (leave (closed f))
        else (run_handler login_proof e f >>= λ r. ok (handled n r)))
act-if e f n true = refl
act-if e f n false = refl

-- Where the unread bytes are the packet that the client builds for a password of 1 to 255 bytes, and
-- the server expects a proof, one round of its loop closes the connection if the password has more
-- than 15 bytes, and else hands the proof to its handler as one packet, of nine bytes and the
-- password.
pub proof_sized :
    (e : Env) (f : Focus) (prefix : ℕ) (password : List ℕ) (p : Packet)
    → Proves prefix password p f
    → f.self.status ≡ SocketStatus.login_attempt
    → read_round e f ≡ (
        if ltb 15 (length password)
        then ok (leave (closed f))
        else (run_handler login_proof e f >>= λ r. ok (handled (9 + length password) r)))
proof_sized e f prefix password p g state =
    read_round-verdict e f (Proves-Shows g)
    ∙ ap (λ t. act e f (verdict t (proof_bytes prefix password))) state
    ∙ ap (act e f) (verdict-proof_bytes prefix password g.small)
    ∙ act-if e f (9 + length password) (ltb 15 (length password))

-- Where the unread bytes are the packet that the client builds from its prefix, of 32 bits, and a
-- password of 1 to 255 bytes, and the database has a password for the account, the check of the
-- proof compares the stored password with the client's and passes on the client's prefix.
pub proof_checked :
    (e : Env) (f : Focus) (prefix : ℕ) (password stored : List ℕ) (p answer : Packet)
    → Proves prefix password p f
    → prefix < 2 ^ 32
    → e.password_row f.self.account.account_id ≡ Executed.rows (some stored)
    → check_proof e f answer ≡ decide (bytes_eq stored password) f prefix answer
unfolding of_le le_bytes
proof_checked e f prefix password stored p answer g k row =
    let (same, back) = proof_read_back prefix password g.small k in
    check_proof_lem e f (proof_bytes prefix password) stored answer (Proves-Shows g)
      (omega (arith, g.small)) row
    ∙ ap₂ (λ w i. decide (bytes_eq stored w) f i answer) same back
