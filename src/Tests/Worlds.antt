-- ===== src/Tests/Worlds.antt =====
-- A world with one entity.
use necroauth.Prelude.{
  ℕ, ◌≡◌, ◌==◌, false, Bool-cases, inl, inr, [], ◌∷◌, ◌++◌, none, some, ok, fault, Fault, ◌>>=◌,
  ltb, pos, negsuc, refl, sym, ◌∙◌,
}
use mathlib.Core.Path.{subst}
use necroauth.World.{
  World, Entity, Grid, get_cell_at, put, add_entity, remove_entity, update, update_entity,
  transfer_pending, visible_cells,
}
use necroauth.World.Count.{count}
use necroauth.World.Place.{IsCleared, entered, entered-IsConsistent}
use necroauth.World.Keeps.{
  IsSettled, IsValid, all_set, set_other, some-inj, add_entity-IsValid, remove_entity-IsValid,
}
use necroauth.World.Update.{InBounds, IsOver}
use necroauth.World.Sweep.{Visible, update-IsValid}
use necroauth.World.Edge.{leaving-null_pointer}

abbrev here : Grid
here = record { x = pos 1; y = pos 1 }

abbrev there : Grid
there = record { x = pos 2; y = pos 1 }

abbrev outside : Grid
outside = record { x = negsuc 0; y = pos 1 }

abbrev tree : Entity
tree = record { owner = some 51; next_owner = none; grid = here; z_modifier_value = 0 }

abbrev no_world : World
no_world = record { all_entities = λ _. none; cells = λ _. []; z_modifiers = λ _. 0; waiting = [] }

abbrev one_world : World
one_world = entered (put no_world 0 tree) 0 51 tree

no_world-IsValid : IsValid no_world
no_world-IsValid = record { consistent = λ c j. refl; settled = λ id e h. cc }

cleared : IsCleared 0 (put no_world 0 tree)
cleared c j = elim (Bool-cases (j == 0)) [ inl same ↦ rw same refl | inr other ↦ rw other refl ]

tree-IsSettled : IsSettled tree
tree-IsSettled = record { cell = 51; owner = refl; over = refl; none_due = refl }

one_world-IsValid : IsValid one_world
one_world-IsValid = record {
  consistent = entered-IsConsistent (put no_world 0 tree) 0 51 tree cleared;
  settled =
      all_set (put no_world 0 tree).all_entities 0 (some tree)
        (λ e h. subst IsSettled (some-inj h) tree-IsSettled)
        (λ i e other h.
          let q = sym (set_other no_world.all_entities 0 i (some tree) other) ∙ h in cc);
}

remove_entity-IsValid_example :
    (v : World) × (remove_entity 0 one_world ≡ ok v)
    × IsValid v
    × (v.all_entities 0 ≡ none)
    × ((c : ℕ) → count 0 (v.cells c) ≡ 0)
    × ((j : ℕ) → (j == 0) ≡ false → v.all_entities j ≡ one_world.all_entities j)
remove_entity-IsValid_example = remove_entity-IsValid one_world 0 tree one_world-IsValid refl

add_entity-IsValid_example :
    (v : World) × (add_entity ltb 1 tree there one_world ≡ ok v)
    × IsValid v
    × (get_cell_at there ≡ none → v ≡ one_world)
    × ((c : ℕ)
        → get_cell_at there ≡ some c
        → (v.all_entities 1 ≡ some (record tree { owner = some c; grid = there }))
          × (v.cells c ≡ one_world.cells c ++ 1 ∷ []))
add_entity-IsValid_example =
    add_entity-IsValid ltb one_world 1 tree there one_world-IsValid refl refl

moving : InBounds (λ _. there)
unfolding InBounds
moving id = (101, refl)

update-IsValid_example :
    (v : World) × (update ltb (λ _. there) (visible_cells 0 3 0 3) one_world ≡ ok v)
    × IsValid v
    × ((id : ℕ) → Visible one_world (visible_cells 0 3 0 3) id → IsOver (λ _. there) id v)
update-IsValid_example =
    update-IsValid ltb (λ _. there) (visible_cells 0 3 0 3) one_world moving one_world-IsValid

leaving-null_pointer_example :
    (update_entity 0 outside (record one_world { waiting = [] }) >>= λ v.
    transfer_pending ltb v.waiting v)
    ≡ fault Fault.null_pointer
leaving-null_pointer_example =
    leaving-null_pointer ltb one_world 0 tree outside one_world-IsValid refl refl refl
