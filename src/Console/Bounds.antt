-- ===== src/Console/Bounds.antt =====
-- How long the log and the history of the console can get.
use necroauth.Prelude.{
  ℕ, suc, ◌≤◌, ◌<◌, ◌≡◌, ◌==◌, Bool, true, false, Bool-cases, leb, ltb, not, ◌&&◌, if◌then◌else◌,
  ◌⊎◌, inl, inr, List, [], ◌∷◌, ◌++◌, length-append, length, Option, none, some, Result, ok, ◌>>=◌,
  >>=-eq-ok, ℤ, pos, refl, ap, arith,
}
use mathlib.Core.Path.{subst}
use necroauth.Console.{
  Console, Keys, drop_first, log, log_all, run, dispatch, remember, send_cmd, sent, toggle, browse,
  browsed, scroll, show, recalled, clamp_index, step_up, step_down, opened, submitted, switched,
  update,
}
use necroauth.Console.Text.{split_input, lowercase, is_whitespace_string}
use necroauth.Console.Command.{Game, Cmd, execute, find_cmd}

-- At most 128 lines in the log, and this many commands in the history.
pub record IsBounded (n : ℕ) (c : Console) : Type 0 where
  pub logs : length c.logs ≤ 128
  pub history : length c.history ≤ n

ok-inj : {A : Type 0} {a b : A} → ok a ≡ ok b → a ≡ b
ok-inj h = cc

length-drop_first :
    {A : Type 0} (max n : ℕ) (xs : List A) (x : A)
    → 0 < max
    → max ≤ n
    → length xs ≤ n
    → length (drop_first max xs ++ x ∷ []) ≤ n
length-drop_first max n [] x p m h = omega arith
length-drop_first max n (y ∷ ys) x p m h = elim (Bool-cases (leb max (suc (length ys)))) [
  | inl full ↦ rw full (omega (arith, length-append ys (x ∷ [])))
  | inr room ↦ rw room (ground (arith, room, length-append ys (x ∷ [])))
]

log-IsBounded : (n : ℕ) (s : List ℕ) (c : Console) → IsBounded n c → IsBounded n (log s c)
unfolding log
log-IsBounded n s c h = record {
  logs = length-drop_first 128 128 c.logs s (omega arith) (omega arith) h.logs;
  history = h.history;
}

log_all-IsBounded :
    (n : ℕ) (ss : List (List ℕ)) (c : Console) → IsBounded n c → IsBounded n (log_all ss c)
unfolding log_all
log_all-IsBounded n [] c h = h
log_all-IsBounded n (s ∷ ss) c h = log_all-IsBounded n ss (log s c) (log-IsBounded n s c h)

run-IsBounded :
    (n : ℕ) (o : Option Cmd) (args : List (List ℕ)) (c : Console) (g : Game)
    → IsBounded n c
    → IsBounded n (run o args c g).0
run-IsBounded n none args c g h = h
run-IsBounded n (some cmd) args c g h = log_all-IsBounded n (execute cmd args g).0 c h

dispatch-IsBounded :
    (n : ℕ) (args : List (List ℕ)) (c : Console) (g : Game)
    → IsBounded n c
    → IsBounded n (dispatch args c g).0
dispatch-IsBounded n [] c g h = h
dispatch-IsBounded n (name ∷ args) c g h =
    run-IsBounded n (find_cmd (lowercase name)) (lowercase name ∷ args) c g h

send_cmd-IsBounded :
    (n : ℕ) (cmd : List ℕ) (c : Console) (g : Game)
    → 32 ≤ n
    → IsBounded n c
    → IsBounded n (send_cmd cmd c g).0
unfolding send_cmd
send_cmd-IsBounded n cmd c g m h =
    dispatch-IsBounded n (split_input cmd) (log (b'>' ∷ b' ' ∷ cmd) (remember cmd c)) g (
      log-IsBounded n (b'>' ∷ b' ' ∷ cmd) (remember cmd c) (record {
        logs = h.logs;
        history = length-drop_first 32 n c.history cmd (omega arith) m h.history;
      }))

-- What keeps both lists keeps the bounds.
same-IsBounded :
    (n : ℕ) (c d : Console)
    → d.logs ≡ c.logs
    → d.history ≡ c.history
    → IsBounded n c
    → IsBounded n d
same-IsBounded n c d l k h = record {
  logs = omega (arith, h.logs, ap {B = ℕ} length l);
  history = omega (arith, h.history, ap {B = ℕ} length k);
}

sent-IsBounded :
    (n : ℕ) (c : Console) (g : Game) (v : ℕ) → IsBounded n c → IsBounded n (sent (c, g, v)).0
sent-IsBounded n c g v h = elim (Bool-cases (v == 0)) [
  | inl zero ↦ rw zero (same-IsBounded n c _ refl refl h)
  | inr other ↦ rw other h
]

pub if-IsBounded :
    (n : ℕ) (b : Bool) (p q : Console × Game)
    → IsBounded n p.0
    → IsBounded n q.0
    → IsBounded n (if b then p else q).0
if-IsBounded n true p q h k = h
if-IsBounded n false p q h k = k

pub toggle-IsBounded :
    (n : ℕ) (c : Console) (g : Game) → 32 ≤ n → IsBounded n c → IsBounded n (toggle c g).0
unfolding toggle
toggle-IsBounded n c g m h =
    let s = send_cmd c.str c g in
    same-IsBounded n (switched c g).0 _ refl refl (
      if-IsBounded n c.active (submitted c g) (opened c, g)
        (if-IsBounded n (ltb 0 (length c.str) && not (is_whitespace_string c.str)) (sent s)
          (record c { active = false }, g)
          (sent-IsBounded n s.0 s.1 s.2 (send_cmd-IsBounded n c.str c g m h))
          (same-IsBounded n c _ refl refl h))
        (same-IsBounded n c _ refl refl h))

show-IsBounded :
    (n : ℕ) (o : Option (List ℕ)) (c : Console) → IsBounded n c → IsBounded n (show o c)
show-IsBounded n none c h = h
show-IsBounded n (some s) c h = same-IsBounded n c _ refl refl h

browse-IsBounded :
    (n : ℕ) (i : ℤ) (c d : Console) → browse i c ≡ ok d → IsBounded n c → IsBounded n d
unfolding browse
browse-IsBounded n i c d e h =
    let (s, _, q) = >>=-eq-ok (recalled c.history (clamp_index (length c.history) i)) _ e in
    let t = record c { cur_history_index = pos (clamp_index (length c.history) i) } in
    subst (IsBounded n) (ok-inj q) (show-IsBounded n s t (same-IsBounded n c t refl refl h))

if-eq-ok :
    {A : Type 0} (b : Bool) (p q : Result A) {d : A}
    → (if b then p else q) ≡ ok d
    → (p ≡ ok d) ⊎ (q ≡ ok d)
if-eq-ok true p q h = inl h
if-eq-ok false p q h = inr h

browsed-IsBounded :
    (n : ℕ) (k : Keys) (c d : Console) → browsed k c ≡ ok d → IsBounded n c → IsBounded n d
browsed-IsBounded n k c d e h =
    let up = browse (step_up c.cur_history_index) c in
    let down = browse (step_down c.cur_history_index) c in
    elim (if-eq-ok k.up up (if k.down then down else ok c) e) [
      | inl q ↦ browse-IsBounded n (step_up c.cur_history_index) c d q h
      | inr q ↦ elim (if-eq-ok k.down down (ok c) q) [
        | inl r ↦ browse-IsBounded n (step_down c.cur_history_index) c d r h
        | inr r ↦ subst (IsBounded n) (ok-inj r) h
      ]
    ]

pub update-IsBounded :
    (n : ℕ) (k : Keys) (c : Console) (g : Game) (r : Console × Game)
    → update k c g ≡ ok r
    → 32 ≤ n
    → IsBounded n c
    → IsBounded n r.0
unfolding update
update-IsBounded n k c g r e m h =
    let d = if k.enter then toggle c g else (c, g) in
    let b = if-IsBounded n k.enter (toggle c g) (c, g) (toggle-IsBounded n c g m h) h in
    elim (if-eq-ok d.0.active (browsed k (scroll k d.0) >>= λ e. ok (e, d.1)) (ok d) e) [
      | inl q ↦
          let (f, k', q') = >>=-eq-ok (browsed k (scroll k d.0)) (λ e. ok (e, d.1)) q in
          subst (λ r. IsBounded n r.0) (ok-inj q')
            (browsed-IsBounded n k (scroll k d.0) f k'
              (same-IsBounded n d.0 (scroll k d.0) refl refl b))
      | inr q ↦ subst (λ r. IsBounded n r.0) (ok-inj q) b
    ]

-- What happens to the console: a turn of the client, with any keys and any game, a line that some
-- other part logs, and text that is typed.
pub data Step : Console → Console → Type 0 where
  turn : (k : Keys) (g : Game) {c : Console} (r : Console × Game) → update k c g ≡ ok r → Step c r.0
  line : (s : List ℕ) (c : Console) → Step c (log s c)
  typed : (s : List ℕ) (c : Console) → Step c (record c { str = s })

pub data Reach : Console → Console → Type 0 where
  here : {c : Console} → Reach c c
  next : {c d e : Console} → Reach c d → Step d e → Reach c e

Step-IsBounded : (n : ℕ) {c d : Console} → 32 ≤ n → Step c d → IsBounded n c → IsBounded n d
Step-IsBounded n m (turn k g {c} r e) h = update-IsBounded n k c g r e m h
Step-IsBounded n m (line s c) h = log-IsBounded n s c h
Step-IsBounded n m (typed s c) h = same-IsBounded n c (record c { str = s }) refl refl h

-- If at the start the log has at most 128 lines and the history at most n commands, n being at least
-- 32, then so it is after any steps.
pub Reach-IsBounded : (n : ℕ) {c d : Console} → 32 ≤ n → IsBounded n c → Reach c d → IsBounded n d
Reach-IsBounded n m h here = h
Reach-IsBounded n m h (next r s) = Step-IsBounded n m s (Reach-IsBounded n m h r)
