-- ===== src/World/Sweep.antt =====
-- `World::Update` as a whole: all entities of all visible cells, then the transfers.
use necroauth.Prelude.{
  ℕ, ◌<◌, ◌≡◌, ◌==◌, ==_refl, ==_iff, Bool, Bool-cases, inl, inr, List, [], ◌∷◌, some, ok, arith,
  refl, ap, ◌∙◌, sym,
}
use mathlib.Core.Path.{subst}
use necroauth.World.{World, Entity, Grid, moved, update_entity, update_all, update_cells, update}
use necroauth.World.Count.{count, indicator, Live}
use necroauth.World.Place.{live}
use necroauth.World.Keeps.{IsValid}
use necroauth.World.Transfer.{IsBusy, KeepsGrid, transfer_pending-IsValid}
use necroauth.World.Update.{InBounds, IsOver, Advances}
use necroauth.World.Move.{Updated, update_entity-stays, update_entity-leaves}

Advances-trans :
    (moves : ℕ → Grid) (u v w : World)
    → Advances moves u v
    → Advances moves v w
    → Advances moves u w
Advances-trans moves u v w a b = record {
  cells = b.cells ∙ a.cells;
  there = λ j e h. let (f, q) = a.there j e h in b.there j f q;
  over = λ j o. b.over j (a.over j o);
}

update_entity-Updated :
    (moves : ℕ → Grid) (w : World) (id : ℕ) (e : Entity)
    → InBounds moves
    → IsBusy moves w.waiting w
    → w.all_entities id ≡ some e
    → (v : World) × (update_entity id (moves id) w ≡ ok v) × Updated moves id w v
unfolding InBounds
update_entity-Updated moves w id e inside b there = elim (Bool-cases (moved e.grid (moves id))) [
  | inl other ↦ let (c, h) = inside id in update_entity-leaves moves w id c e b there other h
  | inr same ↦ update_entity-stays moves w id e b there same
]

-- Some entities are updated, those for which `P` holds among them.
record AllUpdated (moves : ℕ → Grid) (P : ℕ → Type 0) (w v : World) : Type 0 where
  busy : IsBusy moves v.waiting v
  over : (id : ℕ) → P id → IsOver moves id v
  advances : Advances moves w v

update_all-AllUpdated :
    (moves : ℕ → Grid) (ids : List ℕ) (w : World)
    → InBounds moves
    → IsBusy moves w.waiting w
    → Live w ids
    → (v : World) × (update_all moves ids w ≡ ok v) × AllUpdated moves (λ id. 0 < count id ids) w v
unfolding update_all
update_all-AllUpdated moves [] w inside b l = (
  w,
  refl,
  record {
    busy = b;
    over = λ id h. absurd (omega arith);
    advances = record { cells = refl; there = λ j e h. (e, h); over = λ j o. o };
  },
)
update_all-AllUpdated moves (id ∷ ids) w inside b l =
    let (e, there) = l id (omega (arith, ap indicator (==_refl id))) in
    let (v, k, a) = update_entity-Updated moves w id e inside b there in
    let (u, k', c) =
      update_all-AllUpdated moves ids v inside a.busy
        (λ p h. let (f, q) = l p (omega arith) in a.advances.there p f q) in
    (
      u,
      rw k k',
      record {
        busy = c.busy;
        over = λ j h. elim (Bool-cases (id == j)) [
          | inl same ↦
              c.advances.over j (subst (λ j. IsOver moves j v) ((==_iff id j).0 same) a.over)
          | inr other ↦ c.over j (omega (arith, ap indicator other))
        ];
        advances = Advances-trans moves w v u a.advances c.advances;
      },
    )

-- The entity stands in one of these cells.
unfoldable pub Visible : World → List ℕ → ℕ → Type 0
Visible w cs id = (c : ℕ) × (0 < count c cs) × (0 < count id (w.cells c))

update_cells-AllUpdated :
    (moves : ℕ → Grid) (cs : List ℕ) (w : World)
    → InBounds moves
    → IsBusy moves w.waiting w
    → (v : World) × (update_cells moves cs w ≡ ok v) × AllUpdated moves (Visible w cs) w v
unfolding update_cells Visible
update_cells-AllUpdated moves [] w inside b = (
  w,
  refl,
  record {
    busy = b;
    over = λ id (c, h, _). absurd (omega (arith, h));
    advances = record { cells = refl; there = λ j e h. (e, h); over = λ j o. o };
  },
)
update_cells-AllUpdated moves (c ∷ cs) w inside b =
    let (v, k, a) = update_all-AllUpdated moves (w.cells c) w inside b (live w c b.consistent) in
    let (u, k', d) = update_cells-AllUpdated moves cs v inside a.busy in
    (
      u,
      rw k k',
      record {
        busy = d.busy;
        over = λ id (x, h, n). elim (Bool-cases (c == x)) [
          | inl same ↦
              d.advances.over id
                (a.over id (subst (λ x. 0 < count id (w.cells x)) (sym ((==_iff c x).0 same)) n))
          | inr other ↦ d.over id (
            x,
            omega (arith, h, ap indicator other),
            subst (λ f. 0 < count id (f x)) (sym a.advances.cells) n,
          )
        ];
        advances = Advances-trans moves w v u a.advances d.advances;
      },
    )

-- In a valid world, where every position is over a grid cell of the map, the update succeeds: the
-- world is valid again, so each entity stands once, in the cell it is over, which owns it; and each
-- entity that stood in a visible cell is over the grid cell of its position.
pub update-IsValid :
    (above : ℕ → ℕ → Bool) (moves : ℕ → Grid) (visible : List ℕ) (w : World)
    → InBounds moves
    → IsValid w
    → (v : World) × (update above moves visible w ≡ ok v)
      × IsValid v
      × ((id : ℕ) → Visible w visible id → IsOver moves id v)
unfolding update Visible KeepsGrid
update-IsValid above moves visible w inside h =
    let b : IsBusy moves [] (record w { waiting = [] }) = record {
      consistent = h.consistent;
      absent = λ id _. refl;
      present = λ id e there. inl (h.settled id e there, refl);
    } in
    let (v, k, a) = update_cells-AllUpdated moves visible (record w { waiting = [] }) inside b in
    let (u, k', valid, same) = transfer_pending-IsValid above moves v.waiting v a.busy in
    (
      u,
      rw (k, k') refl,
      valid,
      λ id s.
          let (e, there, g) = a.over id s in
          let (f, there', g') = same id e there in (f, there', g' ∙ g),
    )
