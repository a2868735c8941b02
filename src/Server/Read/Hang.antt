-- ===== src/Server/Read/Hang.antt =====
-- A packet whose size field is 65532: the sum of its size wraps to zero, nothing is consumed, and
-- the loop meets the same packet again.
use necroauth.Prelude.{
  ℕ, zero, suc, ◌+◌, ◌≤◌, ◌≡◌, List, [], ◌∷◌, length, of_le, some, none, Result, ok, fault, arith,
  ap, sym, ◌∙◌, refl, true, false, le→ltb, ◌==◌,
}
use mathlib.Core.Path.{subst}
use necroauth.NetworkMessage.{get_active_size, read_at}
use necroauth.NetworkMessage.Write.{Shows}
use necroauth.NetworkMessage.Buffer.{active_size-Shows, read_completed-Shows, read_at-Shows}
use necroauth.AuthCodes.{SocketStatus, status_eq}
use necroauth.Server.Session.{Focus, Env, in_buffer, read_u8, read_u16, handle_gather_info}
use necroauth.Server.Session.Greet.{byte_at, handle_gather_info-greeted}
use necroauth.Server.Read.{
  gather_info, Next, leave, again, read_round, read_callback, dispatch, sized, handled, run_handler,
  consumed,
}
use necroauth.Server.Read.Rounds.{gather_info-Untouched, Untouched}

-- The unread bytes are this header, then a version, a username size, and a username of that size at
-- least; and a username is expected.
pub record Wrapping (rest : List ℕ) (f : Focus) : Type 0 where
  pub shows : Shows (0 ∷ 0 ∷ 252 ∷ 255 ∷ rest) (in_buffer f)
  pub name : 4 + byte_at rest 3 ≤ length rest
  pub status : f.self.status ≡ SocketStatus.gather_info

-- The round goes on, with the same bytes.
abbrev Goes : List ℕ → Result Next → Type 0
Goes rest (fault x) = ⊥
Goes rest (ok (leave g)) = ⊥
Goes rest (ok (again g)) = Wrapping rest g

handler-Goes :
    (rest : List ℕ) (f g : Focus)
    → Wrapping rest f
    → handle_gather_info f ≡ ok (g, true)
    → Wrapping rest (consumed g 0)
handler-Goes rest f g w k = record {
  shows =
      read_completed-Shows 0 (subst (Shows (0 ∷ 0 ∷ 252 ∷ 255 ∷ rest)) (sym u.same_buffer) w.shows)
        (omega arith);
  name = w.name;
  status = u.same_status ∙ w.status;
}
  where
    u : Untouched f g
    u = (gather_info-Untouched f g true k).0

-- No packet is too large for a sum of zero, and none is incomplete.
sized-Goes :
    (rest : List ℕ) (e : Env) (f : Focus) → Wrapping rest f → Goes rest (sized gather_info e f 0)
unfolding sized run_handler handled
sized-Goes rest e f w =
    let k = handle_gather_info-greeted f w.shows (omega (arith, w.name)) in
    rw (le→ltb (get_active_size (in_buffer f)) 0 (omega arith), k) (handler-Goes rest f _ w k)

dispatch-Goes :
    (rest : List ℕ) (e : Env) (f : Focus)
    → Wrapping rest f
    → Goes rest (dispatch e f (some gather_info))
unfolding dispatch read_u16 of_le
dispatch-Goes rest e f w =
    rw
      (
        ap (λ s. status_eq s SocketStatus.gather_info) w.status,
        le→ltb (get_active_size (in_buffer f)) 4 (omega (arith, active_size-Shows w.shows)),
        read_at-Shows 2 2 w.shows (omega arith),
      )
      (sized-Goes rest e f w)

round-Goes : (rest : List ℕ) (e : Env) (f : Focus) → Wrapping rest f → Goes rest (read_round e f)
unfolding read_round read_u8 of_le
round-Goes rest e f w = rw (busy, first) (dispatch-Goes rest e f w)
  where
    busy : (get_active_size (in_buffer f) == 0) ≡ false
    busy = ground (arith, active_size-Shows w.shows)

    first : read_at (in_buffer f) (in_buffer f).rpos 1 ≡ ok (0 ∷ [])
    first =
        ap (λ p. read_at (in_buffer f) p 1) (omega arith) ∙ read_at-Shows 0 1 w.shows (omega arith)

hangs_from :
    (fuel : ℕ) (rest : List ℕ) (e : Env) (f : Focus)
    → ((h : Focus) → Wrapping rest h → read_callback fuel e h ≡ none)
    → (x : Result Next) → read_round e f ≡ x
    → Goes rest x
    → read_callback (suc fuel) e f ≡ none
unfolding read_callback
hangs_from fuel rest e f ih (fault x) k w = absurd w
hangs_from fuel rest e f ih (ok (leave q)) k w = absurd w
hangs_from fuel rest e f ih (ok (again q)) k w = rw (k, read_callback) (ih q w)

-- When a greeting is expected and the unread bytes are one whose size field is 65532, with as many
-- bytes of username as it says, no number of rounds is enough for the loop.
pub read_callback_hangs :
    (fuel : ℕ) (rest : List ℕ) (e : Env) (f : Focus)
    → Wrapping rest f
    → read_callback fuel e f ≡ none
unfolding read_callback
read_callback_hangs zero rest e f w = refl
read_callback_hangs (suc fuel) rest e f w =
    hangs_from fuel rest e f (λ h v. read_callback_hangs fuel rest e h v) (read_round e f) refl
      (round-Goes rest e f w)
