-- ===== src/Server/Read/Owners.antt =====
-- The server's read loop: which requests a session enqueues.
use necroauth.Prelude.{
  ℕ, suc, zero, ◌+◌, ◌≡◌, inl, inr, refl, Bool, true, false, Bool-cases, ◌==◌, ltb, Option, none,
  some, ok, >>=-eq-ok, Result-cases,
}
use mathlib.Core.Path.{subst}
use necroauth.AuthCodes.{size_offset, status_eq}
use necroauth.NetworkMessage.{get_active_size}
use necroauth.Server.Session.{Env, Focus, in_buffer, read_u8, read_u16}
use necroauth.Server.Read.{
  Handler, Next, leave, again, read_round, read_callback, dispatch, sized, handled, run_handler,
  wanted, initial_size, max_size, whole_size, closed, consumed, find_handler,
}
use necroauth.Server.Owners.Handlers.{run_handler-Keeps}
use necroauth.Server.Owners.{Keeps, Keeps-trans, Keeps-same, ok-inj}

module _ (P : ℕ → Type 0) where
  abbrev KeepsNext : Focus → Next → Type 0
  KeepsNext f (leave g) = Keeps P f g
  KeepsNext f (again g) = Keeps P f g

  handled-Keeps :
      (f : Focus) (size : ℕ) (g : Focus) (good : Bool)
      → Keeps P f g
      → KeepsNext f (handled size (g, good))
  unfolding handled
  handled-Keeps f size g true k =
      let t : Focus = consumed g size in Keeps-trans P f g t k (Keeps-same P refl refl)
  handled-Keeps f size g false k =
      let t : Focus = closed g in Keeps-trans P f g t k (Keeps-same P refl refl)

  sized-Keeps :
      (i : Handler) (e : Env) (f : Focus) (size : ℕ) {n : Next}
      → sized i e f size ≡ ok n
      → KeepsNext f n
  unfolding sized
  sized-Keeps i e f size h = elim (Bool-cases (ltb (max_size i) size)) [
    | inl big ↦ subst (KeepsNext f) (ok-inj (rw big at h)) (Keeps-same P refl refl)
    | inr fits ↦ elim (Bool-cases (ltb (get_active_size (in_buffer f)) size)) [
      | inl short ↦ subst (KeepsNext f) (ok-inj (rw (fits, short) at h)) (Keeps-same P refl refl)
      | inr whole ↦
          let ((g, good), k, h1) = >>=-eq-ok (run_handler i e f) _ (rw (fits, whole) at h) in
          subst (KeepsNext f) (ok-inj h1)
            (handled-Keeps f size g good (run_handler-Keeps P i e f k))
    ]
  ]

  dispatch-Keeps :
      (e : Env) (f : Focus) (o : Option Handler) {n : Next} → dispatch e f o ≡ ok n → KeepsNext f n
  unfolding dispatch
  dispatch-Keeps e f none h = subst (KeepsNext f) (ok-inj h) (Keeps-same P refl refl)
  dispatch-Keeps e f (some i) h = elim (Bool-cases (status_eq f.self.status (wanted i))) [
    | inr bad ↦ subst (KeepsNext f) (ok-inj (rw bad at h)) (Keeps-same P refl refl)
    | inl good ↦ elim (Bool-cases (ltb (get_active_size (in_buffer f)) (initial_size i))) [
      | inl short ↦ subst (KeepsNext f) (ok-inj (rw (good, short) at h)) (Keeps-same P refl refl)
      | inr whole ↦
          let (field, _, h1) =
            >>=-eq-ok (read_u16 (in_buffer f) ((in_buffer f).rpos + size_offset)) _
              (rw (good, whole) at h) in
          sized-Keeps i e f (whole_size i field) h1
    ]
  ]

  read_round-Keeps : (e : Env) (f : Focus) {n : Next} → read_round e f ≡ ok n → KeepsNext f n
  unfolding read_round
  read_round-Keeps e f h = elim (Bool-cases (get_active_size (in_buffer f) == 0)) [
    | inl nothing ↦ subst (KeepsNext f) (ok-inj (rw nothing at h)) (Keeps-same P refl refl)
    | inr more ↦
        let (cmd, _, h1) = >>=-eq-ok (read_u8 (in_buffer f) (in_buffer f).rpos) _ (rw more at h) in
        dispatch-Keeps e f (find_handler cmd) h1
  ]

  pub read_callback-Keeps :
      (fuel : ℕ) (e : Env) (f : Focus) {g : Focus}
      → read_callback fuel e f ≡ some (ok g)
      → Keeps P f g
  unfolding read_callback
  read_callback-Keeps zero e f h = cc
  read_callback-Keeps (suc fuel) e f h = elim (Result-cases (read_round e f)) [
    | inl (x, bad) ↦ cc (rw (bad, read_callback) at h)
    | inr (leave g, stop) ↦
        subst (Keeps P f) (cc (rw (stop, read_callback) at h)) (read_round-Keeps e f stop)
    | inr (again g, on) ↦
        Keeps-trans P f g _ (read_round-Keeps e f on)
          (read_callback-Keeps fuel e g (rw (on, read_callback) at h))
  ]
