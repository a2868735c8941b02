-- ===== src/Protocol/Run/Stages.antt =====
-- The four exchanges of a login, each from two idle ends to two idle ends.
use necroauth.Prelude.{
  if◌then◌else◌, ℕ, suc, ◌≤◌, ◌<◌, ◌≡◌, ◌++◌, ◌∷◌, true, List, [], length, some, ok, ◌>>=◌, pos,
  refl, ap,
}
use mathlib.Core.Path.{subst}
use necroauth.AuthCodes.{SocketStatus}
use necroauth.Aes.{Iv}
use necroauth.NetworkMessage.{NetworkMessage}
use necroauth.NetworkMessage.Write.{Shows}
use necroauth.Socket.{Socket, queue_packet}
use necroauth.Socket.Idle.{IsIdle}
use necroauth.Socket.Transfer.{Holding, queue_packet-Holding, queue_packet-IsIdle}
use necroauth.Server.Session.{Env, greeted, admit, version_matches}
use necroauth.Server.Session.Greet.{select_id}
use necroauth.Server.Session.Reply.{Fresh}
use necroauth.Server.Session.Admit.{db_callback_gather_info-queued}
use necroauth.Server.Proof.Accept.{low_bytes}
use necroauth.Client.Session.{Env as ClientEnv, on_connected, prepared}
use necroauth.Client.Session.Packets.{proof_bytes}
use necroauth.Protocol.Keys.{authenticated}
use necroauth.Protocol.Run.{Ends, to_server, to_client, answered}
use necroauth.Protocol.Run.Steps.{to_server-ok, to_client-ok}
use necroauth.Protocol.Run.Server.{loaded, greeting_received, Login, proved, proof_received}
use necroauth.Protocol.Run.Client.{
  Fresh as ClientFresh, queued as client_queued, loaded as client_loaded, addressed,
  on_connected-Shows,
}
use necroauth.Protocol.Run.Reader.{admission_received, keys_received}

-- A socket that waits and has nothing to send.
pub record IsQuiet (s : Socket) : Type 0 where
  pub idle : IsIdle s
  pub empty : s.out_queue ≡ []

module _ (k : ℕ) (ce : ClientEnv) (se : Env) where
  -- The client's greeting.
  pub greeting_run :
      (x : Ends)
      → ClientFresh ce
      → IsQuiet x.client.socket
      → IsQuiet x.server.self.socket
      → x.server.self.status ≡ SocketStatus.gather_info
      → 0 < length x.client.account.username
      → length x.client.account.username ≤ 16
      → (t : Socket) × (m : NetworkMessage) × IsQuiet t
        × IsQuiet (record x.server.self.socket { in_buffer = m })
        × ((on_connected ce x.client >>= λ c.
              to_server (suc (suc k)) ce se (record x { client = c }))
            ≡ ok (record {
              client = record (addressed ce x.client) { socket = t };
              server = loaded (greeted x.server x.client.account.username 1 0 0 select_id) m;
            }))
  greeting_run x z qc qs state some_name small =
      let name = x.client.account.username in
      let (p, sends, shows) = on_connected-Shows ce x.client z some_name small in
      let (m, idle, received) = greeting_received k se x.server name qs.idle state small in
      let c = client_queued (addressed ce x.client) p in
      let (t, e, i, n) =
        to_server-ok (suc (suc k)) ce se (record x { client = c })
          (loaded (greeted x.server name 1 0 0 select_id) m) (pos _)
          (queue_packet-Holding x.client.socket p qc.empty shows)
          (queue_packet-IsIdle x.client.socket p qc.idle) received in
      (
        t,
        m,
        record { idle = i; empty = n },
        record { idle = idle; empty = qs.empty },
        rw (sends, e) refl,
      )

  -- The database's answer, for a known account and the right version.
  pub admission_run :
      (x : Ends) (id : ℕ)
      → ClientFresh ce
      → Fresh se
      → IsQuiet x.client.socket
      → IsQuiet x.server.self.socket
      → version_matches x.server.self.account ≡ true
      → x.client.status ≡ SocketStatus.gather_info
      → 0 < length x.client.account.password
      → length x.client.account.password ≤ 15
      → (t : Socket) × (m reply : NetworkMessage) × IsQuiet t
        × IsQuiet (record x.client.socket { in_buffer = m })
        × Shows (proof_bytes ce.drawn_prefix x.client.account.password) reply
        × ((answered (suc (suc k)) ce se (some id) x >>= λ y. to_client (suc (suc k)) ce se y)
            ≡ ok (record {
              client = client_loaded (client_queued (prepared ce x.client) reply) m;
              server = record x.server {
                self = record x.server.self {
                  socket = t;
                  status = SocketStatus.login_attempt;
                  account = record x.server.self.account { account_id = id };
                };
              };
            }))
  unfolding answered admit
  admission_run x id z z' qc qs version state some_password small =
      let s = x.server.self in
      let (p, answers, shows) = db_callback_gather_info-queued se s (some id) z' in
      let (m, reply, idle, proof, received) =
        admission_received k ce x.client qc.idle state z some_password small in
      let f = record x.server {
        self = record s {
          socket = queue_packet s.socket p;
          status = SocketStatus.login_attempt;
          account = record s.account { account_id = id };
        };
      } in
      let (t, e, i, n) =
        to_client-ok (suc (suc k)) ce se (record x { server = f })
          (client_loaded (client_queued (prepared ce x.client) reply) m) (pos _)
          (queue_packet-Holding s.socket p qs.empty
            (subst (λ c. Shows (0 ∷ c ∷ []) p) (ap (λ b. if b then 0 else 4) version) shows))
          (queue_packet-IsIdle s.socket p qs.idle) received in
      (
        t,
        m,
        reply,
        record { idle = i; empty = n },
        record { idle = idle; empty = qc.empty },
        proof,
        rw (answers, version, e) refl,
      )

  -- The client's proof.
  pub proof_run :
      (x : Ends) {password key greetcode : List ℕ} {iv : Iv} {prefixes : List ℕ}
      {keys : List (List ℕ)}
      → Login se x.server ce.drawn_prefix password key greetcode iv prefixes keys
      → Holding (proof_bytes ce.drawn_prefix password) x.client.socket
      → IsIdle x.client.socket
      → IsQuiet x.server.self.socket
      → x.server.self.status ≡ SocketStatus.login_attempt
      → (t : Socket) × (m reply : NetworkMessage) × IsQuiet t
        × IsQuiet (record x.server.self.socket { in_buffer = m })
        × Shows (1 ∷ 0 ∷ 32 ∷ 0 ∷ low_bytes key ++ low_bytes greetcode) reply
        × (to_server (suc (suc k)) ce se x
            ≡ ok (record {
              client = record x.client { socket = t };
              server = loaded (proved x.server iv prefixes key greetcode keys reply) m;
            }))
  proof_run x {password} {key} {greetcode} {iv} {prefixes} {keys} d holding idle qs state =
      let (m, reply, i, shows, received) =
        proof_received se x.server ce.drawn_prefix password key greetcode iv prefixes keys d k
          qs.idle state in
      let (t, e, j, n) =
        to_server-ok (suc (suc k)) ce se x
          (loaded (proved x.server iv prefixes key greetcode keys reply) m) (pos _) holding idle
          received in
      (t, m, reply, record { idle = j; empty = n }, record { idle = i; empty = qs.empty }, shows, e)

  -- The server's reply with the keys.
  pub keys_run :
      (x : Ends) (key greetcode : List ℕ)
      → Holding (1 ∷ 0 ∷ 32 ∷ 0 ∷ key ++ greetcode) x.server.self.socket
      → IsIdle x.server.self.socket
      → IsIdle x.client.socket
      → x.client.status ≡ SocketStatus.login_attempt
      → length key ≡ 16
      → length greetcode ≡ 16
      → (t : Socket) × (m : NetworkMessage) × (to_client (suc (suc k)) ce se x
          ≡ ok (record {
            client = client_loaded (authenticated x.client key greetcode) m;
            server = record x.server { self = record x.server.self { socket = t } };
          }))
  keys_run x key greetcode holding idle idle' state len len' =
      let (m, received) = keys_received k ce x.client key greetcode idle' state len len' in
      let (t, e, _, _) =
        to_client-ok (suc (suc k)) ce se x (client_loaded (authenticated x.client key greetcode) m)
          (pos _) holding idle received in
      (t, m, e)
