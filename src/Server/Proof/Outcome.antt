-- ===== src/Server/Proof/Outcome.antt =====
-- `HandleAuthLoginProofPacket` as a whole: what follows from the stored and the given password.
use necroauth.Prelude.{
  ℕ, ◌+◌, ◌<◌, ◌≤◌, ◌≡◌, ◌≢◌, ◌^◌, ◌%◌, List, [], ◌∷◌, ◌++◌, length, some, ok, arith, true, false,
  slice, of_le, Bool-cases, inl, inr, le_bytes, length-append, length-map,
}
use necroauth.Database.Connection.{Executed, login_execute}
use necroauth.Aes.{Iv}
use necroauth.Packet.{Packet}
use necroauth.Packet.Append.{new-Holds, put_int-Holds}
use necroauth.NetworkMessage.{NetworkMessage}
use necroauth.NetworkMessage.Write.{Shows}
use necroauth.NetworkMessage.Buffer.{read_at-Shows}
use necroauth.Database.{prepare}
use necroauth.Worker.{enqueue}
use necroauth.Server.Session.{Focus, Env, in_buffer, read_u32, bytes_eq, avoid_prefix}
use necroauth.Server.Session.Greet.{byte_at, read_u8-Shows}
use necroauth.Server.Session.Reply.{Fresh, queued, reply-Shows}
use necroauth.Server.Proof.{handle_login_proof, check_proof, answer_proof, decide, stored_password}
use necroauth.Server.Proof.Prefix.{avoid_prefix-differs, bytes_eq_iff}
use necroauth.Server.Proof.Refuse.{refuse-Holds, wrong_password_log}
use necroauth.Server.Proof.Accept.{accept-Holds, accepted, low_bytes}

-- A complete proof packet is at the front of the in-buffer, with a password of the stated size, and
-- the database has a password for the account.
pub record Submitted (e : Env) (f : Focus) (bs : List ℕ) (stored : List ℕ) : Type 0 where
  pub shows : Shows bs (in_buffer f)
  pub whole : 9 + byte_at bs 8 ≤ length bs
  pub row : e.password_row f.self.account.account_id ≡ Executed.rows (some stored)
  pub fresh : Fresh e

-- The password that a proof packet gives, and the prefix of its sender.
abbrev pub given_password : List ℕ → List ℕ
given_password bs = slice bs 9 (byte_at bs 8)

abbrev pub client_prefix : List ℕ → ℕ
client_prefix bs = of_le (slice bs 4 4)

pub check_proof_lem :
    (e : Env) (f : Focus) (bs stored : List ℕ) (p : Packet)
    → Shows bs (in_buffer f)
    → 9 + byte_at bs 8 ≤ length bs
    → e.password_row f.self.account.account_id ≡ Executed.rows (some stored)
    → check_proof e f p ≡ decide (bytes_eq stored (given_password bs)) f (client_prefix bs) p
unfolding check_proof prepare stored_password login_execute read_u32
check_proof_lem e f bs stored p s h row = rw (
  row,
  read_u8-Shows 8 s (omega (arith, h)),
  read_at-Shows 9 (byte_at bs 8) s h,
  read_at-Shows 4 4 s (omega (arith, h)),
)

-- On a complete proof packet for an account with a stored password, where new messages start at
-- position zero, a password other than the stored one is answered by a failure and logged, and the
-- account stays as it was.
pub handle_login_proof_wrong :
    (e : Env) (f : Focus) (bs stored : List ℕ)
    → Submitted e f bs stored
    → stored ≢ given_password bs
    → (m : NetworkMessage) × (handle_login_proof e f
        ≡ ok (
          record f {
            self = queued f.self m;
            worker = enqueue f.worker (wrong_password_log f.self);
          },
          true,
        ))
      × Shows (1 ∷ 1 ∷ 0 ∷ 0 ∷ []) m
unfolding handle_login_proof decide answer_proof le_bytes
handle_login_proof_wrong e f bs stored h ne =
    let (p, k, one) = put_int-Holds 1 1 new-Holds (omega arith) (omega arith) in
    let (q, k', four) = refuse-Holds f one in
    let (m, k'', shows) = reply-Shows e f.self h.fresh four (omega arith) (omega arith) in
    (m, rw (k, check_proof_lem e f bs stored p h.shows h.whole h.row, differ, k', k''), shows)
  where
    differ : bytes_eq stored (given_password bs) ≡ false
    differ = elim (Bool-cases (bytes_eq stored (given_password bs))) [
      | inl e ↦ absurd (ne ((bytes_eq_iff stored (given_password bs)).0 e))
      | inr e ↦ e
    ]

-- On a complete proof packet with the stored password, where new messages start at position zero,
-- the draws of prefixes end and two keys, of fewer than 2^32 bytes together, can be drawn, the
-- handler makes a session: its key is the first drawn, its prefix is not the client's and its
-- counter is zero; earlier sessions are deleted before the new one is inserted; and the reply holds
-- the key and the greetcode. The status of the connection stays as it was.
pub handle_login_proof_right :
    (e : Env) (f : Focus) (bs stored : List ℕ) (iv : Iv) (prefixes key greetcode : List ℕ)
    (keys : List (List ℕ))
    → Submitted e f bs stored
    → stored ≡ given_password bs
    → avoid_prefix (client_prefix bs) f.self.account.iv f.random.prefixes ≡ ok (iv, prefixes)
    → f.random.keys ≡ key ∷ greetcode ∷ keys
    → length key + length greetcode < 2 ^ 32
    → (m : NetworkMessage) × (handle_login_proof e f
        ≡ ok (
          let g = accepted f iv prefixes key greetcode keys in record g { self = queued g.self m },
          true,
        ))
      × Shows (1 ∷ 0 ∷ 32 ∷ 0 ∷ low_bytes key ++ low_bytes greetcode) m
      × (iv.prefix ≢ client_prefix bs)
unfolding handle_login_proof decide answer_proof le_bytes
handle_login_proof_right e f bs stored iv prefixes key greetcode keys h eq drawn ks small =
    let (p, k, one) = put_int-Holds 1 1 new-Holds (omega arith) (omega arith) in
    let (q, k', all) =
      accept-Holds f (client_prefix bs) iv prefixes key greetcode keys one drawn ks small in
    let g = accepted f iv prefixes key greetcode keys in
    let (m, k'', shows) = reply-Shows e g.self h.fresh all (omega arith) size in
    (
      m,
      rw (k, check_proof_lem e f bs stored p h.shows h.whole h.row, same, k', k''),
      shows,
      (avoid_prefix-differs (client_prefix bs) f.self.account.iv f.random.prefixes drawn).0,
    )
  where
    same : bytes_eq stored (given_password bs) ≡ true
    same = (bytes_eq_iff stored (given_password bs)).1 eq

    size : length (1 ∷ 0 ∷ 32 ∷ 0 ∷ low_bytes key ++ low_bytes greetcode) < 2 ^ 61
    size = omega (
      arith,
      length-append (1 ∷ 0 ∷ 32 ∷ 0 ∷ low_bytes key) (low_bytes greetcode),
      length-map (λ (i : ℕ). i % 256) key,
      length-map (λ (i : ℕ). i % 256) greetcode,
    )
