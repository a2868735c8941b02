-- ===== src/Server/Owners.antt =====
-- The callbacks that travel through the worker capture their session by a raw `this`. Which sessions
-- those are, and that they are still there when the answers are served.
pub mod Handlers
use necroauth.Prelude.{
  ℕ, ◌+◌, ◌-◌, ◌≡◌, ◌⊎◌, inl, inr, refl, sym, ◌∙◌, Bool, true, false, List, [], ◌∷◌, ◌++◌, some,
  Result, ok, ◌>>=◌, >>=-eq-ok, arith,
}
use mathlib.Core.Path.{subst}
use necroauth.Database.{DbRequest, prepare, Statement}
use necroauth.Worker.{Worker, enqueue}
use necroauth.Packet
use necroauth.Packet.{Packet, put_u8, put_u16}
use necroauth.Aes.{Random, generate_session_key, reset_counter}
use necroauth.NetworkMessage.{read_at, of_packet}
use necroauth.AuthCodes.{
  aes_128_key_size, c_proof_sizeof, c_proof_initial_size, LoginProofResult, proof_result_code,
  username_size_offset, username_offset, version_offset, password_size_offset, password_offset,
  iv_prefix_offset, PacketId, packet_id_code,
}
use necroauth.Server.Session.{
  Session, Env, Focus, handle_gather_info, greeted, reply, read_u8, read_u32, put_each,
  avoid_prefix, bytes_eq,
}
use necroauth.Server.Proof.{
  handle_login_proof, refuse, accept, decide, check_proof, answer_proof, stored_password,
  delete_sessions_request, new_session_request, wrong_password_request,
}
use necroauth.Server.Read.{Handler, gather_info, login_proof, run_handler}

abbrev pub All {ℓ κ} : {A : Type ℓ} → (A → Type κ) → List A → Type κ
All P [] = Unit
All P (x ∷ xs) = P x × All P xs

pub All-append {ℓ κ} :
    {A : Type ℓ} (P : A → Type κ) (xs : List A) (y : A) → All P xs → P y → All P (xs ++ y ∷ [])
All-append P [] y h p = (p, tt)
All-append P (x ∷ xs) y h p = (h.0, All-append P xs y h.1 p)

-- The identities of the sessions in the list, and being one of them.
abbrev pub ids : List Session → List ℕ
ids [] = []
ids (s ∷ ss) = s.this ∷ ids ss

abbrev pub Has : List ℕ → ℕ → Type 0
Has [] i = ⊥
Has (j ∷ js) i = (j ≡ i) ⊎ Has js i

-- The callback of a request captured one of these sessions.
abbrev pub IsOwned : (ℕ → Type 0) → DbRequest → Type 0
IsOwned P r = (i : ℕ) × (r.callback ≡ some i) × P i

-- Requests without such a callback are never answered.
abbrev pub IsAnswerable : (ℕ → Type 0) → DbRequest → Type 0
IsAnswerable P r = (r.fire_and_forget ≡ true) ⊎ IsOwned P r

pub record AreOwned (P : ℕ → Type 0) (w : Worker) : Type 0 where
  pub waiting : All (IsAnswerable P) w.exec_queue
  pub answered : All (IsOwned P) w.resp_queue

module _ (P Q : ℕ → Type 0) (more : (i : ℕ) → P i → Q i) where
  pub IsAnswerable-mono : (r : DbRequest) → IsAnswerable P r → IsAnswerable Q r
  IsAnswerable-mono r (inl fire) = inl fire
  IsAnswerable-mono r (inr (i, e, p)) = inr (i, e, more i p)

  waiting_mono : (rs : List DbRequest) → All (IsAnswerable P) rs → All (IsAnswerable Q) rs
  waiting_mono [] h = tt
  waiting_mono (r ∷ rs) h = (IsAnswerable-mono r h.0, waiting_mono rs h.1)

  answered_mono : (rs : List DbRequest) → All (IsOwned P) rs → All (IsOwned Q) rs
  answered_mono [] h = tt
  answered_mono (r ∷ rs) ((i, e, p), h) = ((i, e, more i p), answered_mono rs h)

  -- More sessions own no fewer requests.
  pub AreOwned-mono : (w : Worker) → AreOwned P w → AreOwned Q w
  AreOwned-mono w h = record {
    waiting = waiting_mono w.exec_queue h.waiting;
    answered = answered_mono w.resp_queue h.answered;
  }

module _ (P : ℕ → Type 0) where
  pub enqueue-AreOwned :
      (w : Worker) (r : DbRequest) → IsAnswerable P r → AreOwned P w → AreOwned P (enqueue w r)
  unfolding enqueue
  enqueue-AreOwned w r a h = record {
    waiting = All-append (IsAnswerable P) w.exec_queue r h.waiting a;
    answered = h.answered;
  }

  -- What becomes of a session leaves its identity and the ownership of all requests.
  pub record Keeps (f g : Focus) : Type 0 where
    pub this : g.self.this ≡ f.self.this
    pub owned : P f.self.this → AreOwned P f.worker → AreOwned P g.worker

  pub Keeps-trans : (f g h : Focus) → Keeps f g → Keeps g h → Keeps f h
  Keeps-trans f g h a b = record {
    this = b.this ∙ a.this;
    owned = λ p o. b.owned (subst P (sym a.this) p) (a.owned p o);
  }

  -- A step that enqueues nothing.
  pub Keeps-same : {f g : Focus} → g.self.this ≡ f.self.this → g.worker ≡ f.worker → Keeps f g
  Keeps-same e w = record { this = e; owned = λ p o. subst (AreOwned P) (sym w) o }

  -- Requests that are never answered.
  pub fired :
      (w : Worker) (r : DbRequest)
      → r.fire_and_forget ≡ true
      → AreOwned P w
      → AreOwned P (enqueue w r)
  fired w r e h = enqueue-AreOwned w r (inl e) h

pub ok-inj {ℓ} : {A : Type ℓ} {a b : A} → ok a ≡ ok b → a ≡ b
ok-inj e = cc
