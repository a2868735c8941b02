-- ===== src/World/Update.antt =====
-- The update of the visible cells: each of their entities goes to the grid cell that its position is
-- over, and a transfer is due exactly for those that left their cell.
use necroauth.Prelude.{
  ℕ, ◌≡◌, ◌==◌, ==_refl, ==_iff, Bool, true, false, Bool-cases, ◌⊎◌, inl, inr, List, some, refl, ap,
  ap₂, ◌∙◌, sym, ℤ, pos, negsuc, ◌&&◌, not,
}
use mathlib.Core.Path.{subst}
use necroauth.World.{World, Entity, Grid, get_cell_at, moved, int_eq}
use necroauth.World.Count.{count}
use necroauth.World.Place.{stands, owned}
use necroauth.World.Keeps.{IsSettled, some-inj}
use necroauth.World.Transfer.{IsDue, IsBusy}

int_eq_sound : (a b : ℤ) → int_eq a b ≡ true → a ≡ b
int_eq_sound (pos a) (pos b) h = ap pos ((==_iff a b).0 h)
int_eq_sound (negsuc a) (negsuc b) h = ap negsuc ((==_iff a b).0 h)
int_eq_sound (pos a) (negsuc b) h = cc
int_eq_sound (negsuc a) (pos b) h = cc

int_eq_refl : (a : ℤ) → int_eq a a ≡ true
int_eq_refl (pos a) = ==_refl a
int_eq_refl (negsuc a) = ==_refl a

both : (a b : Bool) → not (a && b) ≡ false → (a ≡ true) × (b ≡ true)
both true true h = (refl, refl)
both true false h = cc
both false b h = cc

pub unmoved : (g h : Grid) → moved g h ≡ false → g ≡ h
unmoved g h e =
    let (p, q) = both (int_eq g.x h.x) (int_eq g.y h.y) e in
    ap₂ (λ a b. record { x = a; y = b }) (int_eq_sound g.x h.x p) (int_eq_sound g.y h.y q)

pub unmoved_refl : (g : Grid) → moved g g ≡ false
unmoved_refl g = rw (int_eq_refl g.x, int_eq_refl g.y)

-- All grid cells that the entities go to are on the map.
unfoldable pub InBounds : (ℕ → Grid) → Type 0
InBounds moves = (id : ℕ) → (c : ℕ) × (get_cell_at (moves id) ≡ some c)

-- An entity is there, over the grid cell that it should be over.
abbrev pub IsOver : (ℕ → Grid) → ℕ → World → Type 0
IsOver moves id w = (e : Entity) × (w.all_entities id ≡ some e) × (e.grid ≡ moves id)

-- What an update of some entities leaves alone.
pub record Advances (moves : ℕ → Grid) (w v : World) : Type 0 where
  pub cells : v.cells ≡ w.cells
  pub there :
      (j : ℕ) (e : Entity) → w.all_entities j ≡ some e → (f : Entity) × (v.all_entities j ≡ some f)
  pub over : (j : ℕ) → IsOver moves j w → IsOver moves j v

-- One entity is replaced.
pub record Replaced (id : ℕ) (e : Entity) (w v : World) : Type 0 where
  pub cells : v.cells ≡ w.cells
  pub new : v.all_entities id ≡ some e
  pub old : (j : ℕ) → (j == id) ≡ false → v.all_entities j ≡ w.all_entities j

new_at :
    {id : ℕ} {e : Entity} {w v : World} (j : ℕ)
    → Replaced id e w v
    → (j == id) ≡ true
    → v.all_entities j ≡ some e
new_at {id} {v = v} j r same = ap v.all_entities ((==_iff j id).0 same) ∙ r.new

pub Replaced-Advances :
    {moves : ℕ → Grid} {w v : World} (id : ℕ) (e : Entity)
    → Replaced id e w v
    → e.grid ≡ moves id
    → Advances moves w v
Replaced-Advances {moves} {w} {v} id e r h = record {
  cells = r.cells;
  there = λ j f q. elim (Bool-cases (j == id)) [
    | inl same ↦ (e, new_at j r same)
    | inr other ↦ (f, r.old j other ∙ q)
  ];
  over = λ j (f, q, g). elim (Bool-cases (j == id)) [
    | inl same ↦ (e, new_at j r same, h ∙ ap moves (sym ((==_iff j id).0 same)))
    | inr other ↦ (f, r.old j other ∙ q, g)
  ];
}

-- The entity keeps its owner, and is settled or due; the list of transfers is as before for others.
pub Replaced-IsBusy :
    {moves : ℕ → Grid} {ids ids' : List ℕ} {w v : World} (id : ℕ) (e f : Entity)
    → IsBusy moves ids w
    → w.all_entities id ≡ some e
    → f.owner ≡ e.owner
    → Replaced id f w v
    → ((j : ℕ) → (j == id) ≡ false → count j ids' ≡ count j ids)
    → (IsSettled f × (count id ids' ≡ 0)) ⊎ (IsDue (moves id) f × (count id ids' ≡ 1))
    → IsBusy moves ids' v
Replaced-IsBusy {moves} {ids} {ids'} {w} {v} id e f b there same r others state = record {
  consistent = λ c j.
      ap (λ cs. count j (cs c)) r.cells ∙ b.consistent c j ∙ elim (Bool-cases (j == id)) [
        | inl here ↦
            ap (λ i. stands (w.all_entities i) c) ((==_iff j id).0 here)
            ∙ ap (λ o. stands o c) there
            ∙ ap (λ o. owned o c) (sym same)
            ∙ ap (λ o. stands o c) (sym (new_at j r here))
        | inr other ↦ ap (λ o. stands o c) (sym (r.old j other))
      ];
  absent = λ j h. elim (Bool-cases (j == id)) [
    | inl here ↦ let q = sym (new_at j r here) ∙ h in cc
    | inr other ↦ others j other ∙ b.absent j (sym (r.old j other) ∙ h)
  ];
  present = λ j g h. elim (Bool-cases (j == id)) [
    | inl here ↦
        let q : f ≡ g = some-inj (sym (new_at j r here) ∙ h) in
        subst (λ i. (IsSettled g × (count i ids' ≡ 0)) ⊎ (IsDue (moves i) g × (count i ids' ≡ 1)))
          (sym ((==_iff j id).0 here))
          (subst
            (λ g. (IsSettled g × (count id ids' ≡ 0)) ⊎ (IsDue (moves id) g × (count id ids' ≡ 1)))
            q state)
    | inr other ↦
        subst (λ n. (IsSettled g × (n ≡ 0)) ⊎ (IsDue (moves j) g × (n ≡ 1))) (sym (others j other))
          (b.present j g (sym (r.old j other) ∙ h))
  ];
}
