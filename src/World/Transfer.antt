-- ===== src/World/Transfer.antt =====
-- The transfers that are due after an update: each one succeeds, and the world is valid again.
use necroauth.Prelude.{
  ℕ, ◌≡◌, ◌==◌, ==_refl, ==_iff, Bool, false, Bool-cases, Option-cases, ◌⊎◌, inl, inr, List, [],
  ◌∷◌, none, some, ok, Result, ◌>>=◌, arith, refl, ap, ◌∙◌, sym,
}
use mathlib.Core.Path.{subst}
use necroauth.World.{
  World, Entity, Grid, get_cell_at, put, set, deref, given, moved, transfer_to_cell_immediately,
  add_entity_ptr, transfer_pending,
}
use necroauth.World.Count.{count, indicator}
use necroauth.World.Place.{
  IsConsistent, remove_entity_ptr-IsCleared, entered, entered-IsConsistent, add_entity_ptr-entered,
  put-IsConsistent, apart,
}
use necroauth.World.Keeps.{IsSettled, IsValid, set_same, unowned, some-inj}

pub bind_ok : {A B : Type 0} {r : Result A} {a : A} (f : A → Result B) → r ≡ ok a → (r >>= f) ≡ f a
bind_ok f h = ap (λ r. r >>= f) h

-- The entity after its transfer.
abbrev pub transferred : Entity → ℕ → Entity
transferred e d = record e { owner = some d; next_owner = none }

-- The transfer of an entity that is owned and has its next owner set.
record Transferred (id d : ℕ) (e : Entity) (w v : World) : Type 0 where
  consistent : IsConsistent v
  new : v.all_entities id ≡ some (transferred e d)
  old : (j : ℕ) → (j == id) ≡ false → v.all_entities j ≡ w.all_entities j

transfer-Transferred :
    (above : ℕ → ℕ → Bool) (w : World) (id c d : ℕ) (e : Entity)
    → IsConsistent w
    → w.all_entities id ≡ some e
    → e.owner ≡ some c
    → e.next_owner ≡ some d
    → (v : World) × (transfer_to_cell_immediately above id none w ≡ ok v) × Transferred id d e w v
unfolding transfer_to_cell_immediately
transfer-Transferred above w id c d e h there owner next =
    let f = unowned e in
    let (ids, removed, cleared) = remove_entity_ptr-IsCleared w id c e h there owner in
    let w' = record (put w id f) { cells = set w.cells c ids } in
    let (z, added) =
      add_entity_ptr-entered above w' id d f
        (set_same w.all_entities id id (some f) (==_refl id)) in
    let u = record (entered w' id d f) { z_modifiers = z } in
    let here = set_same w'.all_entities id id (some (record f { owner = some d })) (==_refl id) in
    (
      put u id (transferred e d),
      rw (there, owner, removed)
          (bind_ok
              (λ d'. add_entity_ptr above d' id w' >>= λ u.
                deref (u.all_entities id) >>= λ f. ok (put u id (record f { next_owner = none })))
              (ap (λ o. deref (given none o)) next)
            ∙ bind_ok
                (λ u.
                  deref (u.all_entities id) >>= λ f. ok (put u id (record f { next_owner = none })))
                added
            ∙ bind_ok (λ f. ok (put u id (record f { next_owner = none }))) (ap deref here)),
      record {
        consistent =
            put-IsConsistent u id (record f { owner = some d }) (transferred e d)
              (entered-IsConsistent w' id d f cleared) here refl;
        new = set_same u.all_entities id id (some (transferred e d)) (==_refl id);
        old = λ j other. rw other refl;
      },
    )

-- A transfer is due: the entity will move to the cell it is over, which is that of this grid cell.
pub record IsDue (g : Grid) (e : Entity) : Type 0 where
  pub from : ℕ
  pub to : ℕ
  pub owner : e.owner ≡ some from
  pub next : e.next_owner ≡ some to
  pub over : get_cell_at e.grid ≡ some to
  pub updated : moved e.grid g ≡ false

-- Between the updates of entities and their transfers: an entity is settled, or its transfer is due
-- and it stands once in the list of those.
pub record IsBusy (moves : ℕ → Grid) (ids : List ℕ) (w : World) : Type 0 where
  pub consistent : IsConsistent w
  pub absent : (id : ℕ) → w.all_entities id ≡ none → count id ids ≡ 0
  pub present :
      (id : ℕ) (e : Entity)
      → w.all_entities id ≡ some e
      → (IsSettled e × (count id ids ≡ 0)) ⊎ (IsDue (moves id) e × (count id ids ≡ 1))

-- The entities of one world are in the other, over the same cells.
unfoldable pub KeepsGrid : World → World → Type 0
KeepsGrid w v =
    (id : ℕ) (e : Entity)
    → w.all_entities id ≡ some e
    → (f : Entity) × (v.all_entities id ≡ some f) × (f.grid ≡ e.grid)

Transferred-KeepsGrid :
    {w v : World} (id d : ℕ) (e : Entity)
    → w.all_entities id ≡ some e
    → Transferred id d e w v
    → KeepsGrid w v
unfolding KeepsGrid
Transferred-KeepsGrid {w} {v} id d e there t j f h = elim (Bool-cases (j == id)) [
  | inl same ↦
      let k = (==_iff j id).0 same in
      let q : f ≡ e = some-inj (sym h ∙ ap w.all_entities k ∙ there) in
      (transferred e d, ap v.all_entities k ∙ t.new, ap (λ e. e.grid) (sym q))
  | inr other ↦ (f, t.old j other ∙ h, refl)
]

-- The first of the transfers that are due.
Transferred-IsBusy :
    {moves : ℕ → Grid} {ids : List ℕ} {w v : World} (id : ℕ) (e : Entity)
    → IsBusy moves (id ∷ ids) w
    → (due : IsDue (moves id) e) → count id (id ∷ ids) ≡ 1
    → Transferred id due.to e w v
    → IsBusy moves ids v
Transferred-IsBusy {moves} {ids} {w} {v} id e b due once t = record {
  consistent = t.consistent;
  absent = λ j h. elim (Bool-cases (j == id)) [
    | inl same ↦
        let k = ap v.all_entities (sym ((==_iff j id).0 same)) in let q = sym t.new ∙ k ∙ h in cc
    | inr other ↦ omega (arith, b.absent j (sym (t.old j other) ∙ h))
  ];
  present = λ j f h. elim (Bool-cases (j == id)) [
    | inl same ↦
        let k = (==_iff j id).0 same in
        inl (
          subst IsSettled (some-inj (sym t.new ∙ ap v.all_entities (sym k) ∙ h))
              (record { cell = due.to; owner = refl; over = due.over; none_due = refl }),
          ap (λ i. count i ids) k ∙ omega (arith, once, ap indicator (==_refl id)),
        )
    | inr other ↦ elim (b.present j f (sym (t.old j other) ∙ h)) [
      | inl (s, n) ↦ inl (s, omega (arith, n))
      | inr (u, n) ↦ inr (u, omega (arith, n, ap indicator (apart id j other)))
    ]
  ];
}

keeps_trans : (u v w : World) → KeepsGrid u v → KeepsGrid v w → KeepsGrid u w
unfolding KeepsGrid
keeps_trans u v w h k id e there =
    let (f, q, g) = h id e there in let (f', q', g') = k id f q in (f', q', g' ∙ g)

-- All transfers that are due are made; the world is valid, and entities are over the same cells.
pub transfer_pending-IsValid :
    (above : ℕ → ℕ → Bool) (moves : ℕ → Grid) (ids : List ℕ) (w : World)
    → IsBusy moves ids w
    → (v : World) × (transfer_pending above ids w ≡ ok v) × IsValid v × KeepsGrid w v
unfolding transfer_pending KeepsGrid
transfer_pending-IsValid above moves [] w b = (
  w,
  refl,
  record {
    consistent = b.consistent;
    settled = λ id e h. elim (b.present id e h) [
      | inl (s, _) ↦ s
      | inr (_, n) ↦ absurd (omega (arith, n))
    ];
  },
  λ id e h. (e, h, refl),
)
transfer_pending-IsValid above moves (id ∷ ids) w b = elim (Option-cases (w.all_entities id)) [
  | inl gone ↦ absurd (omega (arith, b.absent id gone, ap indicator (==_refl id)))
  | inr (e, there) ↦ elim (b.present id e there) [
    | inl (_, n) ↦ absurd (omega (arith, n, ap indicator (==_refl id)))
    | inr (due, once) ↦
        let (v, k, t) =
          transfer-Transferred above w id due.from due.to e b.consistent there due.owner due.next in
        let (u, k', valid, same) =
          transfer_pending-IsValid above moves ids v (Transferred-IsBusy id e b due once t) in
        (u, rw k k', valid, keeps_trans w v u (Transferred-KeepsGrid id due.to e there t) same)
  ]
]
