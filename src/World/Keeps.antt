-- ===== src/World/Keeps.antt =====
-- A world in which cells and owners agree, and each entity is owned by the cell it is over, stays so
-- when an entity is added or removed.
use necroauth.Prelude.{
  ℕ, ◌≡◌, ◌==◌, ==_refl, ==_iff, Bool, true, false, Bool-cases, Option-cases, if◌then◌else◌, inl,
  inr, [], ◌∷◌, ◌++◌, Option, none, some, ok, refl, ap, ◌∙◌, sym,
}
use mathlib.Core.Path.{subst}
use necroauth.World.{
  World, Entity, Grid, get_cell_at, put, set, insert_entity, remove_entity, add_entity,
}
use necroauth.World.Count.{count}
use necroauth.World.Place.{
  IsConsistent, IsCleared, stands, remove_entity_ptr-IsCleared, entered, entered-IsConsistent,
  add_entity_ptr-entered,
}

-- The owner is the cell that the entity is over, and no transfer is due.
pub record IsSettled (e : Entity) : Type 0 where
  pub cell : ℕ
  pub owner : e.owner ≡ some cell
  pub over : get_cell_at e.grid ≡ some cell
  pub none_due : e.next_owner ≡ none

pub record IsValid (w : World) : Type 0 where
  pub consistent : IsConsistent w
  pub settled : (id : ℕ) (e : Entity) → w.all_entities id ≡ some e → IsSettled e

pub set_same {ℓ} : {A : Type ℓ} (f : ℕ → A) (k i : ℕ) (a : A) → (i == k) ≡ true → set f k a i ≡ a
set_same f k i a h = rw h

pub set_other {ℓ} :
    {A : Type ℓ} (f : ℕ → A) (k i : ℕ) (a : A) → (i == k) ≡ false → set f k a i ≡ f i
set_other f k i a h = rw h

-- What holds of the new entity and of all old ones holds of all.
pub all_set :
    {P : Entity → Type 0} (f : ℕ → Option Entity) (k : ℕ) (o : Option Entity)
    → ((e : Entity) → o ≡ some e → P e)
    → ((i : ℕ) (e : Entity) → (i == k) ≡ false → f i ≡ some e → P e)
    → (i : ℕ) (e : Entity) → set f k o i ≡ some e
    → P e
all_set f k o new old i e h = elim (Bool-cases (i == k)) [
  | inl same ↦ new e (sym (set_same f k i o same) ∙ h)
  | inr other ↦ old i e other (sym (set_other f k i o other) ∙ h)
]

abbrev pub unowned : Entity → Entity
unowned e = record e { owner = none }

-- In a valid world, the removal of an entity that is there succeeds: the world stays valid, the
-- entity is gone from the map and from every cell, and every other entity stays as it was.
pub remove_entity-IsValid :
    (w : World) (id : ℕ) (e : Entity)
    → IsValid w
    → w.all_entities id ≡ some e
    → (v : World) × (remove_entity id w ≡ ok v)
      × IsValid v
      × (v.all_entities id ≡ none)
      × ((c : ℕ) → count id (v.cells c) ≡ 0)
      × ((j : ℕ) → (j == id) ≡ false → v.all_entities j ≡ w.all_entities j)
unfolding remove_entity
remove_entity-IsValid w id e h there =
    let s = h.settled id e there in
    let (ids, removed, cleared) =
      remove_entity_ptr-IsCleared w id s.cell e h.consistent there s.owner in
    let v : World = record w {
      all_entities = set (set w.all_entities id (some (unowned e))) id none;
      cells = set w.cells s.cell ids;
    } in
    (
      v,
      rw (there, s.owner, removed) refl,
      record {
        consistent = λ c j. elim (Bool-cases (j == id)) [
          | inl same ↦ cleared c j ∙ rw same refl
          | inr other ↦ cleared c j ∙ rw other refl
        ];
        settled =
            all_set (set w.all_entities id (some (unowned e))) id none (λ e q. cc)
              (λ i f other q.
                h.settled i f (sym (set_other w.all_entities id i (some (unowned e)) other) ∙ q));
      },
      ap (λ b. if b then none else set w.all_entities id (some (unowned e)) id) (==_refl id),
      λ c.
          cleared c id
          ∙ ap (λ b. if b then 0 else stands (set w.all_entities id (some (unowned e)) id) c)
              (==_refl id),
      λ j other. rw other refl,
    )

pub some-inj : {a b : Entity} → some a ≡ some b → a ≡ b
some-inj h = cc

-- A new entity over this cell.
abbrev pub arriving : Entity → Grid → Entity
arriving e g = record e { grid = g }

inserted :
    (w : World) (id : ℕ) (e : Entity)
    → w.all_entities id ≡ none
    → insert_entity id e w.all_entities ≡ set w.all_entities id (some e)
unfolding insert_entity
inserted w id e h = rw h

inserted-IsCleared :
    (w : World) (id : ℕ) (e : Entity)
    → IsConsistent w
    → w.all_entities id ≡ none
    → IsCleared id (put w id e)
inserted-IsCleared w id e h fresh c j = elim (Bool-cases (j == id)) [
  | inl same ↦ rw same (
      h c j
      ∙ ap (λ i. stands (w.all_entities i) c) ((==_iff j id).0 same)
      ∙ ap (λ o. stands o c) fresh)
  | inr other ↦ rw other (h c j)
]

-- To a valid world, an entity with a new ID and no transfer due is added. Over a cell of the map it
-- joins that cell, which owns it; otherwise the world is as before. The world stays valid.
pub add_entity-IsValid :
    (above : ℕ → ℕ → Bool) (w : World) (id : ℕ) (e : Entity) (g : Grid)
    → IsValid w
    → w.all_entities id ≡ none
    → e.next_owner ≡ none
    → (v : World) × (add_entity above id e g w ≡ ok v)
      × IsValid v
      × (get_cell_at g ≡ none → v ≡ w)
      × ((c : ℕ)
          → get_cell_at g ≡ some c
          → (v.all_entities id ≡ some (record e { owner = some c; grid = g }))
            × (v.cells c ≡ w.cells c ++ id ∷ []))
unfolding add_entity
add_entity-IsValid above w id e g h fresh idle = elim (Option-cases (get_cell_at g)) [
  | inl out ↦ (w, rw out refl, h, λ _. refl, λ c q. cc)
  | inr (c, inside) ↦
      let f = arriving e g in
      let w' = put w id f in
      let t = record f { owner = some c } in
      let there = set_same w.all_entities id id (some f) (==_refl id) in
      let (z, added) = add_entity_ptr-entered above w' id c f there in
      (
        record (entered w' id c f) { z_modifiers = z },
        rw (inside, inserted w id f fresh, added) refl,
        record {
          consistent =
              entered-IsConsistent w' id c f (inserted-IsCleared w id f h.consistent fresh);
          settled =
              all_set w'.all_entities id (some t)
                (λ x q.
                  subst IsSettled (some-inj q)
                    (record { cell = c; owner = refl; over = inside; none_due = idle }))
                (λ i x other q.
                  h.settled i x (sym (set_other w.all_entities id i (some f) other) ∙ q));
        },
        λ out. cc,
        λ d q.
            let k : c ≡ d = cc in
            subst
              (λ d.
                (set w'.all_entities id (some t) id ≡ some (record e { owner = some d; grid = g }))
                × (set w.cells c (w.cells c ++ id ∷ []) d ≡ w.cells d ++ id ∷ []))
              k
              (
                set_same w'.all_entities id id (some t) (==_refl id),
                set_same w.cells c c (w.cells c ++ id ∷ []) (==_refl c),
              ),
      )
]
