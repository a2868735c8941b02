-- ===== src/World/Place.antt =====
-- Cells and owners agree: each entity stands once in the cell that owns it, and nowhere else.
use necroauth.Prelude.{
  ℕ, suc, ◌+◌, ◌≡◌, ◌==◌, ==_refl, ==_iff, Bool, true, false, Bool-cases, Option-cases,
  if◌then◌else◌, inl, inr, List, [], ◌∷◌, ◌++◌, take, drop, Option, none, some, ok, arith, refl, ap,
  ◌∙◌, sym, ◌&&◌,
}
use necroauth.World.{
  World, Entity, put, put_cell, set, remove_ptr_at, remove_found, remove_entity_ptr, add_entity_ptr,
}
use necroauth.World.Count.{count, indicator, count-append, Live, find_ptr-Found}

-- How often an entity should stand in a cell.
abbrev pub owned : Option ℕ → ℕ → ℕ
owned none c = 0
owned (some d) c = indicator (d == c)

abbrev pub stands : Option Entity → ℕ → ℕ
stands none c = 0
stands (some e) c = owned e.owner c

abbrev pub IsConsistent : World → Type 0
IsConsistent w = (c j : ℕ) → count j (w.cells c) ≡ stands (w.all_entities j) c

-- The same, when this entity stands nowhere.
abbrev pub IsCleared : ℕ → World → Type 0
IsCleared id w =
    (c j : ℕ) → count j (w.cells c) ≡ (if j == id then 0 else stands (w.all_entities j) c)

pub live : (w : World) (c : ℕ) → IsConsistent w → Live w (w.cells c)
live w c h p some_p = elim (Option-cases (w.all_entities p)) [
  | inl q ↦ absurd (omega (arith, h c p, ap (λ o. stands o c) q))
  | inr r ↦ r
]

pub stands-some :
    (id c d : ℕ) (e : Entity) (w : World)
    → w.all_entities id ≡ some e
    → e.owner ≡ some c
    → stands (w.all_entities id) d ≡ indicator (c == d)
stands-some id c d e w there owner = ap (λ o. stands o d) there ∙ ap (λ o. owned o d) owner

pub apart : (a b : ℕ) {t : Bool} → (b == a) ≡ t → (a == b) ≡ t
apart a b {t = true} h = ground arith
apart a b {t = false} h = ground arith

-- An entity leaves the cell that owns it.
pub remove_entity_ptr-IsCleared :
    (w : World) (id c : ℕ) (e : Entity)
    → IsConsistent w
    → w.all_entities id ≡ some e
    → e.owner ≡ some c
    → (ids : List ℕ) × (remove_entity_ptr c id w
        ≡ ok (put_cell (put w id (record e { owner = none })) c ids))
      × IsCleared id (put_cell (put w id (record e { owner = none })) c ids)
unfolding remove_entity_ptr remove_found remove_ptr_at
remove_entity_ptr-IsCleared w id c e h there owner =
    let stood = λ (d : ℕ). h d id ∙ stands-some id c d e w there owner in
    let once = stood c ∙ ap indicator (==_refl c) in
    let (i, found, f) = find_ptr-Found w (w.cells c) id (live w c h) (omega arith) in
    let ids = take i (w.cells c) ++ drop (suc i) (w.cells c) in
    (
      ids,
      rw (found, f.holds, there) refl,
      λ d j. elim (Bool-cases (j == id)) [
        | inl same ↦
            let k = (==_iff j id).0 same in
            elim (Bool-cases (d == c)) [
              | inl here ↦
                  rw (same, here)
                    (omega (
                      arith,
                      f.fewer j,
                      once,
                      ap (λ k. indicator (id == k) + 0) k,
                      ap indicator (==_refl id),
                      ap (λ k. count k (w.cells c)) k,
                      ap (λ k. count k ids) k,
                    ))
              | inr away ↦
                  rw (same, away)
                    (ap (λ k. count k (w.cells d)) k ∙ stood d ∙ ap indicator (apart c d away))
            ]
        | inr other ↦
            let fewer : count j ids ≡ count j (w.cells c) =
              omega (arith, f.fewer j, ap indicator (apart id j other)) in
            elim (Bool-cases (d == c)) [
              | inl here ↦
                  rw (other, here)
                    (fewer ∙ ap (λ d. count j (w.cells d)) (sym ((==_iff d c).0 here)) ∙ h d j)
              | inr away ↦ rw (other, away) (h d j)
            ]
      ],
    )

-- An entity that stands nowhere enters a cell.
abbrev pub entered : World → ℕ → ℕ → Entity → World
entered w id c e = put_cell (put w id (record e { owner = some c })) c (w.cells c ++ id ∷ [])

pub entered-IsConsistent :
    (w : World) (id c : ℕ) (e : Entity) → IsCleared id w → IsConsistent (entered w id c e)
entered-IsConsistent w id c e h d j = elim (Bool-cases (d == c)) [
  | inl here ↦ elim (Bool-cases (j == id)) [
    | inl same ↦
        rw (here, same)
          (count-append j (w.cells c) (id ∷ [])
            ∙ omega (
              arith,
              h c j,
              ap (λ b. if b then 0 else stands (w.all_entities j) c) same,
              ap indicator (apart id j same),
              ap indicator (apart c d here),
            ))
    | inr other ↦
        rw (here, other)
          (count-append j (w.cells c) (id ∷ [])
            ∙ omega (
              arith,
              h c j,
              ap (λ b. if b then 0 else stands (w.all_entities j) c) other,
              ap indicator (apart id j other),
              ap (λ d. stands (w.all_entities j) d) ((==_iff d c).0 here),
            ))
  ]
  | inr away ↦ elim (Bool-cases (j == id)) [
    | inl same ↦
        rw (away, same)
          (omega (
            arith,
            h d j,
            ap (λ b. if b then 0 else stands (w.all_entities j) d) same,
            ap indicator (apart c d away),
          ))
    | inr other ↦
        rw (away, other) (h d j ∙ ap (λ b. if b then 0 else stands (w.all_entities j) d) other)
  ]
]

pub add_entity_ptr-entered :
    (above : ℕ → ℕ → Bool) (w : World) (id c : ℕ) (e : Entity)
    → w.all_entities id ≡ some e
    → (z : ℕ → ℕ) × (add_entity_ptr above c id w
        ≡ ok (record (entered w id c e) { z_modifiers = z }))
unfolding add_entity_ptr
add_entity_ptr-entered above w id c e there =
    elim (Bool-cases (above e.z_modifier_value 0 && above e.z_modifier_value (w.z_modifiers c))) [
      | inl high ↦ (set w.z_modifiers c e.z_modifier_value, rw (there, high) refl)
      | inr low ↦ (w.z_modifiers, rw (there, low) refl)
    ]

-- An entity changes, but not its owner.
pub put-IsConsistent :
    (w : World) (id : ℕ) (e f : Entity)
    → IsConsistent w
    → w.all_entities id ≡ some e
    → f.owner ≡ e.owner
    → IsConsistent (put w id f)
put-IsConsistent w id e f h there same c j = elim (Bool-cases (j == id)) [
  | inl here ↦ rw here (
      h c j
      ∙ ap (λ i. stands (w.all_entities i) c) ((==_iff j id).0 here)
      ∙ ap (λ o. stands o c) there
      ∙ ap (λ o. owned o c) (sym same))
  | inr other ↦ rw other (h c j)
]
