-- ===== src/Protocol/Run/Agree.antt =====
-- The whole login: every step succeeds, and the two ends agree.
use necroauth.Prelude.{
  ℕ, suc, ◌^◌, ◌≤◌, ◌<◌, ◌≡◌, ◌≢◌, ◌++◌, ◌∷◌, true, false, List, [], length, some, ok, ◌>>=◌, arith,
  Option, Result, fault, refl, ap, ap₂, ◌∙◌,
}
use necroauth.Database.Connection.{Executed}
use mathlib.Core.Path.{subst}
use necroauth.AuthCodes.{SocketStatus}
use necroauth.Aes.{Iv}
use necroauth.Database.{DbRequest, request, bind, Value}
use necroauth.NetworkMessage.Write.{Shows}
use necroauth.Socket.{queue_packet, update_events}
use necroauth.Client.Session.Packets.{proof_bytes}
use necroauth.Socket.Idle.{IsIdle}
use necroauth.Socket.Transfer.{Holding, queue_packet-Holding, queue_packet-IsIdle}
use necroauth.Server.Session.{Env, greeted, avoid_prefix}
use necroauth.Server.Session.Greet.{select_id}
use necroauth.Server.Session.Reply.{Fresh}
use necroauth.Server.Proof.Accept.{low_bytes, delete_sessions, insert_session}
use necroauth.Server.Proof.Prefix.{avoid_prefix-differs}
use necroauth.Worker.{enqueue}
use necroauth.Client.Session.{Env as ClientEnv, on_connected}
use necroauth.Protocol.Run.Server.{loaded, Login, proved}
use necroauth.Protocol.Run.{Ends, login, to_server, to_client, answered}
use necroauth.Protocol.Run.Client.{Fresh as ClientFresh, addressed, addressed-password}
use necroauth.Protocol.Run.Stages.{IsQuiet, greeting_run, admission_run, proof_run, keys_run}

-- Two ends at the start of a login that will succeed: both sessions are new, the names and the
-- password fit their packets, the database stores the client's password under the account's id,
-- and the server draws a prefix other than the client's, a key and a greetcode.
pub record Start (ce : ClientEnv) (se : Env) (x : Ends) (id : ℕ) (iv : Iv) (key greetcode : List ℕ)
    : Type 0 where
  pub client_fresh : ClientFresh ce
  pub server_fresh : Fresh se
  pub client_quiet : IsQuiet x.client.socket
  pub server_quiet : IsQuiet x.server.self.socket
  pub client_status : x.client.status ≡ SocketStatus.gather_info
  pub server_status : x.server.self.status ≡ SocketStatus.gather_info
  pub some_name : 0 < length x.client.account.username
  pub small_name : length x.client.account.username ≤ 16
  pub some_password : 0 < length x.client.account.password
  pub small_password : length x.client.account.password ≤ 15
  pub low : ce.drawn_prefix < 2 ^ 32
  pub row : se.password_row id ≡ Executed.rows (some x.client.account.password)
  pub prefixes : List ℕ
  pub drawn :
      avoid_prefix ce.drawn_prefix x.server.self.account.iv x.server.random.prefixes
      ≡ ok (iv, prefixes)
  pub keys : List (List ℕ)
  pub keys_lem : x.server.random.keys ≡ key ∷ greetcode ∷ keys
  pub key_size : length key ≡ 16
  pub greetcode_size : length greetcode ≡ 16
  pub key_bytes : low_bytes key ≡ key
  pub greetcode_bytes : low_bytes greetcode ≡ greetcode

-- What the client's greeting makes the server ask for.
abbrev pub id_request : Ends → DbRequest
id_request x = record (request false (bind select_id (Value.text x.client.account.username))) {
  callback = some x.server.self.this;
  notice = true;
}

-- What the two ends hold after it.
pub record Agreed (x y : Ends) (id : ℕ) (key greetcode : List ℕ) : Type 0 where
  pub client_key : y.client.account.session_key ≡ key
  pub server_key : y.server.self.account.session_key ≡ key
  pub client_greetcode : y.client.account.greetcode ≡ greetcode
  pub authenticated :
      (y.client.account.has_authenticated ≡ true) × (y.client.status ≡ SocketStatus.authed)
  pub forgotten : y.client.account.password ≡ []
  pub account : y.server.self.account.account_id ≡ id
  pub prefixes : y.server.self.account.iv.prefix ≢ y.client.account.iv.prefix
  pub counters : (y.client.account.iv.counter ≡ 0) × (y.server.self.account.iv.counter ≡ 0)
  -- The requests, in their order.
  pub requests :
      y.server.worker
      ≡ enqueue
          (enqueue (enqueue x.server.worker (id_request x)) (delete_sessions y.server.self))
          (insert_session y.server.self greetcode)

keys_packet :
    {ce : ClientEnv} {se : Env} {x : Ends} {id : ℕ} {iv : Iv} {key greetcode : List ℕ}
    → Start ce se x id iv key greetcode
    → low_bytes key ++ low_bytes greetcode ≡ key ++ greetcode
keys_packet s = ap₂ (λ a b. a ++ b) s.key_bytes s.greetcode_bytes

>>=-through :
    {A B C : Type 0} (r : Result A) (f : A → Result B) (g : B → Result C) {b : B}
    → (r >>= f) ≡ ok b
    → (r >>= λ a. f a >>= g) ≡ g b
>>=-through (ok a) f g e = rw e refl
>>=-through (fault x) f g e = cc

-- The four exchanges make a login.
login-exchanges :
    (n : ℕ) (ce : ClientEnv) (se : Env) (row : Option ℕ) (x a b d : Ends) {y : Ends}
    → (on_connected ce x.client >>= λ c. to_server n ce se (record x { client = c })) ≡ ok a
    → (answered n ce se row a >>= λ z. to_client n ce se z) ≡ ok b
    → to_server n ce se b ≡ ok d
    → to_client n ce se d ≡ ok y
    → login n ce se row x ≡ ok y
unfolding login
login-exchanges n ce se row x a b d e e' e'' e4 =
    >>=-through (on_connected ce x.client) (λ c. to_server n ce se (record x { client = c }))
      (λ a. answered n ce se row a >>= λ b.
        to_client n ce se b >>= λ d. to_server n ce se d >>= λ f. to_client n ce se f)
      e
    ∙ >>=-through (answered n ce se row a) (λ z. to_client n ce se z)
        (λ d. to_server n ce se d >>= λ f. to_client n ce se f) e'
    ∙ rw (e'', e4)

-- The ends when the proof is on its way.
record Halfway (ce : ClientEnv) (x b : Ends) (id : ℕ) : Type 0 where
  holding : Holding (proof_bytes ce.drawn_prefix x.client.account.password) b.client.socket
  idle : IsIdle b.client.socket
  quiet : IsQuiet b.server.self.socket
  client_status : b.client.status ≡ SocketStatus.login_attempt
  server_status : b.server.self.status ≡ SocketStatus.login_attempt
  client_iv : b.client.account.iv ≡ record { prefix = ce.drawn_prefix; counter = 0 }
  forgotten : b.client.account.password ≡ []
  account : b.server.self.account.account_id ≡ id
  server_iv : b.server.self.account.iv ≡ x.server.self.account.iv
  random : b.server.random ≡ x.server.random
  worker : b.server.worker ≡ enqueue x.server.worker (id_request x)

halfway :
    (k : ℕ) (ce : ClientEnv) (se : Env) (x : Ends) (id : ℕ) (iv : Iv) (key greetcode : List ℕ)
    → Start ce se x id iv key greetcode
    → (a b : Ends) × ((on_connected ce x.client >>= λ c.
          to_server (suc (suc k)) ce se (record x { client = c }))
        ≡ ok a)
      × ((answered (suc (suc k)) ce se (some id) a >>= λ z. to_client (suc (suc k)) ce se z) ≡ ok b)
      × Halfway ce x b id
unfolding greeted queue_packet update_events
halfway k ce se x id iv key greetcode s =
    let same = addressed-password ce x.client in
    let (t, m, quiet, quiet', e) =
      greeting_run k ce se x s.client_fresh s.client_quiet s.server_quiet s.server_status
        s.some_name s.small_name in
    let a : Ends = record {
      client = record (addressed ce x.client) { socket = t };
      server = loaded (greeted x.server x.client.account.username 1 0 0 select_id) m;
    } in
    let (u, n, proof, quiet'', last, shows, e') =
      admission_run k ce se a id s.client_fresh s.server_fresh quiet quiet' refl s.client_status
        (omega (arith, s.some_password, ap {B = ℕ} length same))
        (omega (arith, s.small_password, ap {B = ℕ} length same)) in
    (
      a,
      _,
      e,
      e',
      record {
        holding =
            queue_packet-Holding (record t { in_buffer = n }) proof last.empty
              (subst (λ w. Shows (proof_bytes ce.drawn_prefix w) proof) same shows);
        idle = queue_packet-IsIdle (record t { in_buffer = n }) proof last.idle;
        quiet = quiet'';
        client_status = refl;
        server_status = refl;
        client_iv = refl;
        forgotten = refl;
        account = refl;
        server_iv = refl;
        random = refl;
        worker = refl;
      },
    )

-- From a start as `Start` describes, with at least two units of fuel for each read loop, the login
-- succeeds, and the ends are then as `Agreed` says: both accounts hold the drawn session key; the
-- client also holds the greetcode, is authenticated and has forgotten its password; the server's
-- account has the id of the row; the prefixes of the two differ and both counters are zero; and the
-- server has requested the account's id, the deletion of earlier sessions and the insertion of the
-- new one with its key and greetcode, in this order.
pub login-Agreed :
    (k : ℕ) (ce : ClientEnv) (se : Env) (x : Ends) (id : ℕ) (iv : Iv) (key greetcode : List ℕ)
    → Start ce se x id iv key greetcode
    → (y : Ends) × (login (suc (suc k)) ce se (some id) x ≡ ok y) × Agreed x y id key greetcode
unfolding queue_packet update_events
login-Agreed k ce se x id iv key greetcode s =
    let (a, b, e, e', h) = halfway k ce se x id iv key greetcode s in
    let ready : Login se b.server ce.drawn_prefix x.client.account.password key greetcode iv
        s.prefixes s.keys =
      record {
        small = s.small_password;
        low = s.low;
        fresh = s.server_fresh;
        row = ap se.password_row h.account ∙ s.row;
        drawn =
            ap₂ (λ i r. avoid_prefix ce.drawn_prefix i r.prefixes) h.server_iv h.random ∙ s.drawn;
        keys_lem = ap (λ r. r.keys) h.random ∙ s.keys_lem;
        key_sizes = omega (arith, s.key_size, s.greetcode_size);
      } in
    let (t, m, reply, quiet, quiet', shows, e'') =
      proof_run k ce se b ready h.holding h.idle h.quiet h.server_status in
    let d : Ends = record {
      client = record b.client { socket = t };
      server = loaded (proved b.server iv s.prefixes key greetcode s.keys reply) m;
    } in
    let (u, n, e4) =
      keys_run k ce se d key greetcode
        (queue_packet-Holding (record b.server.self.socket { in_buffer = m }) reply quiet'.empty
          (subst (λ w. Shows (1 ∷ 0 ∷ 32 ∷ 0 ∷ w) reply) (keys_packet s) shows))
        (queue_packet-IsIdle (record b.server.self.socket { in_buffer = m }) reply quiet'.idle)
        quiet.idle h.client_status s.key_size s.greetcode_size in
    let differs =
      avoid_prefix-differs ce.drawn_prefix x.server.self.account.iv x.server.random.prefixes
        s.drawn in
    (
      _,
      login-exchanges (suc (suc k)) ce se (some id) x a b d e e' e'' e4,
      record {
        client_key = refl;
        server_key = refl;
        client_greetcode = refl;
        authenticated = (refl, refl);
        forgotten = h.forgotten;
        account = h.account;
        prefixes = λ q. differs.0 (q ∙ ap (λ v. v.prefix) h.client_iv);
        counters = (ap (λ v. v.counter) h.client_iv, refl);
        requests =
            ap
              (λ w.
                enqueue (enqueue w (delete_sessions d.server.self))
                  (insert_session d.server.self greetcode))
              h.worker;
      },
    )
