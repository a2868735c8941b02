-- ===== src/World/Count.antt =====
-- How often a pointer stands in a cell, and what the search for it finds.
use necroauth.Prelude.{
  ℕ, zero, suc, ◌+◌, ◌<◌, ◌≡◌, ◌==◌, ==_refl, ==_iff, Bool, Bool-cases, if◌then◌else◌, inl, inr,
  List, [], ◌∷◌, ◌++◌, take, drop, get_elem?, some, ok, arith, ap,
}
use necroauth.World.{World, Entity, find_ptr}

abbrev pub indicator : Bool → ℕ
indicator b = if b then 1 else 0

abbrev pub count : ℕ → List ℕ → ℕ
count id [] = 0
count id (p ∷ ps) = indicator (p == id) + count id ps

pub count-append : (id : ℕ) (ps qs : List ℕ) → count id (ps ++ qs) ≡ count id ps + count id qs
count-append id [] qs = omega arith
count-append id (p ∷ ps) qs = omega (arith, count-append id ps qs)

-- Every pointer of this list is to an entity.
abbrev pub Live : World → List ℕ → Type 0
Live w ps = (p : ℕ) → 0 < count p ps → (e : Entity) × (w.all_entities p ≡ some e)

-- This index holds the pointer, and its removal takes one occurrence away.
pub record Found (ps : List ℕ) (id i : ℕ) : Type 0 where
  pub holds : get_elem? ps i ≡ some id
  pub fewer : (j : ℕ) → count j (take i ps ++ drop (suc i) ps) + indicator (id == j) ≡ count j ps

Live-head :
    (w : World) (p : ℕ) (ps : List ℕ) → Live w (p ∷ ps) → (e : Entity) × (w.all_entities p ≡ some e)
Live-head w p ps h = h p (omega (arith, ap indicator (==_refl p)))

Live-tail : (w : World) (p : ℕ) (ps : List ℕ) → Live w (p ∷ ps) → Live w ps
Live-tail w p ps h q some_q = h q (omega arith)

-- The search finds the pointer if it is there.
pub find_ptr-Found :
    (w : World) (ps : List ℕ) (id : ℕ)
    → Live w ps
    → 0 < count id ps
    → (i : ℕ) × (find_ptr w ps id ≡ ok (some i)) × Found ps id i
unfolding find_ptr
find_ptr-Found w [] id h some_id = absurd (omega arith)
find_ptr-Found w (p ∷ ps) id h some_id =
    let (e, there) = Live-head w p ps h in
    elim (Bool-cases (p == id)) [
      | inl same ↦ (
        zero,
        rw (there, same),
        record {
          holds = ap some ((==_iff p id).0 same);
          fewer = λ j. omega (arith, ap (λ k. indicator (k == j)) ((==_iff p id).0 same));
        },
      )
      | inr other ↦
          let (i, found, f) =
            find_ptr-Found w ps id (Live-tail w p ps h) (omega (arith, ap indicator other)) in
          (
            suc i,
            rw (there, other, found),
            record { holds = f.holds; fewer = λ j. omega (arith, f.fewer j) },
          )
    ]
