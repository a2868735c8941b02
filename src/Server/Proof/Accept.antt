-- ===== src/Server/Proof/Accept.antt =====
-- The branch of a right password: the new session, its two requests, and the reply with the keys.
use necroauth.Prelude.{
  ℕ, ◌+◌, ◌<◌, ◌≡◌, List, [], ◌∷◌, ◌++◌, length, ok, arith, refl, true, le_bytes, map, ◌%◌,
  append_assoc, ◌^◌, sym, append-nil, length-append, length-map,
}
use mathlib.Core.Path.{subst}
use necroauth.Aes.{Iv, reset_counter, generate_session_key}
use necroauth.Packet.{Packet}
use necroauth.Packet.Append.{Holds, Builds, put_int-Holds}
use necroauth.Database.{Statement, Value, DbRequest, request, prepare}
use necroauth.Worker.{enqueue}
use necroauth.Server.Session.{Session, Focus, put_each, avoid_prefix}
use necroauth.Server.Proof.{accept, delete_sessions_request, new_session_request}

-- The bytes that `packet << uint8_t` writes for these values.
abbrev pub low_bytes : List ℕ → List ℕ
low_bytes = map (λ k. k % 256)

put_each-Holds :
    (ks : List ℕ) {bs : List ℕ} {p : Packet}
    → Holds bs p
    → length bs + length ks < 2 ^ 62
    → Builds (bs ++ low_bytes ks) (put_each ks p)
unfolding put_each le_bytes
put_each-Holds [] {bs} {p} h small = (p, refl, subst (λ l. Holds l p) (sym (append-nil bs)) h)
put_each-Holds (k ∷ ks) {bs} {p} h small =
    let (q, e, i) = put_int-Holds 1 k h (omega arith) (omega arith) in
    let (r, e', j) = put_each-Holds ks i (omega (arith, length-append bs (k % 256 ∷ []))) in
    (r, rw (e, e'), subst (λ l. Holds l r) (append_assoc bs (k % 256 ∷ []) (low_bytes ks)) j)

-- The account after the login: a new key, and the prefix at which the draws ended.
abbrev pub logged_in : Session → Iv → List ℕ → Session
logged_in s iv key = record s {
  account = record s.account { iv = reset_counter iv; session_key = key };
}

abbrev pub delete_sessions : Session → DbRequest
delete_sessions s =
    request true (record {
      query = Statement.del_prev_sessions;
      bound = Value.number s.account.account_id ∷ [];
    })

abbrev pub insert_session : Session → List ℕ → DbRequest
insert_session s greetcode = request true (record {
  query = Statement.ins_new_session;
  bound =
      Value.number s.account.account_id
      ∷ Value.blob s.account.session_key
      ∷ Value.text s.remote_address
      ∷ Value.blob greetcode
      ∷ [];
})

abbrev pub accepted : Focus → Iv → List ℕ → List ℕ → List ℕ → List (List ℕ) → Focus
accepted f iv prefixes key greetcode keys =
    let s = logged_in f.self iv key in
    record f {
      self = s;
      worker = enqueue (enqueue f.worker (delete_sessions s)) (insert_session s greetcode);
      random = record { prefixes = prefixes; keys = keys };
    }

-- A right password makes a session: the account takes the drawn key and a prefix other than the
-- client's with its counter at zero; the deletion of earlier sessions is enqueued before the
-- insertion of the new one; and the reply carries the key and the greetcode.
pub accept-Holds :
    (f : Focus) (client : ℕ) (iv : Iv) (prefixes key greetcode : List ℕ) (keys : List (List ℕ))
    {p : Packet}
    → Holds (1 ∷ []) p
    → avoid_prefix client f.self.account.iv f.random.prefixes ≡ ok (iv, prefixes)
    → f.random.keys ≡ key ∷ greetcode ∷ keys
    → length key + length greetcode < 2 ^ 32
    → (q : Packet) × (accept f client p ≡ ok (accepted f iv prefixes key greetcode keys, q))
      × Holds (1 ∷ 0 ∷ 32 ∷ 0 ∷ low_bytes key ++ low_bytes greetcode) q
unfolding accept delete_sessions_request new_session_request prepare le_bytes generate_session_key
accept-Holds f client iv prefixes key greetcode keys {p} h drawn ks small =
    let (q, e, k) = put_int-Holds 1 0 h (omega arith) (omega arith) in
    let (r, e', k') = put_int-Holds 2 32 k (omega arith) (omega arith) in
    let (t, e'', k'') = put_each-Holds key k' (omega arith) in
    let (u, e''', k''') =
      put_each-Holds greetcode k'' (omega (arith, length-map (λ (i : ℕ). i % 256) key)) in
    (u, rw (e, e', drawn, ks, e'', e'''), k''')
