-- ===== src/Server/Read/Total.antt =====
-- `ReadCallback` returns, unless the 16-bit sum of a packet's size comes out as zero.
use necroauth.Prelude.{
  ℕ, zero, suc, ◌+◌, ◌%◌, ◌^◌, ◌≤◌, ◌<◌, ◌≡◌, ◌≢◌, List, length, drop, true, some, Result, ok,
  fault, arith, ap, sym, ◌∙◌, length-drop, drop-drop, refl,
}
use mathlib.Core.Path.{subst}
use necroauth.NetworkMessage.Write.{Shows}
use necroauth.NetworkMessage.Buffer.{active_size-Shows, read_completed-Shows}
use necroauth.Server.Session.{Focus, Env, in_buffer}
use necroauth.Server.Read.{Next, leave, again, read_round, read_callback, whole_size}
use necroauth.Server.Read.Branches.{size_field, read_u16-Shows, initial_size_lem}
use necroauth.Server.Read.Rounds.{
  Round, Consumes, read_round-Round, run_handler-Untouched, Untouched,
}

-- No packet header, wherever it may begin, makes the sum of the fixed part and the size field zero.
abbrev pub NoZeroSize : List ℕ → Type 0
NoZeroSize bs = (k : ℕ) → k + 4 ≤ length bs → (4 + size_field (drop k bs)) % 2 ^ 16 ≢ 0

-- A round that goes on leaves the bytes behind the packet, in the same state.
pub record Advances (bs : List ℕ) (f g : Focus) : Type 0 where
  pub size : ℕ
  pub header : 4 ≤ length bs
  pub size_lem : size ≡ (4 + size_field bs) % 2 ^ 16
  pub within : size ≤ length bs
  pub rest : Shows (drop size bs) (in_buffer g)
  pub same_status : g.self.status ≡ f.self.status

pub Round-Advances :
    {bs : List ℕ} (e : Env) (f g : Focus) → Shows bs (in_buffer f) → Round e f g → Advances bs f g
Round-Advances {bs} e f g s r = record {
  size = n;
  header = enough;
  size_lem = omega (arith, initial_size_lem r.handler, field_eq);
  within = within;
  rest =
      subst (Shows (drop n bs)) (sym (ap in_buffer k.next))
        (read_completed-Shows n (subst (Shows bs) (sym u.same_buffer) s) within);
  same_status = ap (λ x. x.self.status) k.next ∙ u.same_status;
}
  where
    n : ℕ
    n = whole_size r.handler r.field

    k : Consumes r.handler e f g n
    k = r.consumes

    u : Untouched f k.result
    u = (run_handler-Untouched r.handler e f k.result true k.called).0

    enough : 4 ≤ length bs
    enough = omega (arith, initial_size_lem r.handler, r.enough, active_size-Shows s)

    within : n ≤ length bs
    within = omega (arith, k.available, active_size-Shows s)

    field_eq : r.field ≡ size_field bs
    field_eq = cc (r.header, read_u16-Shows s enough)

NoZeroSize-drop : (n : ℕ) (bs : List ℕ) → n ≤ length bs → NoZeroSize bs → NoZeroSize (drop n bs)
NoZeroSize-drop n bs le h k enough e =
    h (n + k) (omega (arith, length-drop n bs))
      (ap (λ l. (4 + size_field l) % 2 ^ 16) (sym (drop-drop k n bs)) ∙ e)

module _ (fuel : ℕ) (e : Env) (f : Focus) (bs : List ℕ) where
  round_returns :
      Shows bs (in_buffer f)
      → NoZeroSize bs
      → length bs < suc fuel
      → ((g : Focus) (cs : List ℕ)
          → Shows cs (in_buffer g)
          → NoZeroSize cs
          → length cs < fuel
          → (r : Result Focus) × (read_callback fuel e g ≡ some r))
      → (x : Result Next) → read_round e f ≡ x
      → (r : Result Focus) × (read_callback (suc fuel) e f ≡ some r)
  unfolding read_callback
  round_returns s n h ih (fault x) k = (fault x, rw (k, read_callback))
  round_returns s n h ih (ok (leave g)) k = (ok g, rw (k, read_callback))
  round_returns s n h ih (ok (again g)) k =
      let a = Round-Advances e f g s (read_round-Round e f g k) in
      let (r, done) =
        ih g (drop a.size bs) a.rest (NoZeroSize-drop a.size bs a.within n)
          (omega (arith, length-drop a.size bs, a.within, a.size_lem, n 0 a.header)) in
      (r, rw (k, read_callback) done)

-- The read loop on a valid in-buffer returns or faults, within one round for each unread byte and
-- one more, if no four unread bytes read as a packet header make a total size that wraps to zero.
pub read_callback_returns :
    (fuel : ℕ) (e : Env) (f : Focus) (bs : List ℕ)
    → Shows bs (in_buffer f)
    → NoZeroSize bs
    → length bs < fuel
    → (r : Result Focus) × (read_callback fuel e f ≡ some r)
read_callback_returns zero e f bs s n h = absurd (omega arith)
read_callback_returns (suc fuel) e f bs s n h =
    round_returns fuel e f bs s n h (λ g cs. read_callback_returns fuel e g cs) (read_round e f)
      refl
