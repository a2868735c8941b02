-- ===== src/World/Edge.antt =====
-- An entity whose position leaves the map.
use necroauth.Prelude.{
  ℕ, Bool, ◌≡◌, ==_refl, true, [], ◌∷◌, none, some, ok, fault, Fault, ◌>>=◌, refl, ap, ◌∙◌,
}
use necroauth.World.{
  World, Entity, Grid, get_cell_at, put, put_cell, deref, given, moved, transfer_to_cell_queue,
  update_entity, add_entity_ptr, transfer_to_cell_immediately, transfer_pending,
}
use necroauth.World.Place.{IsConsistent, remove_entity_ptr-IsCleared, put-IsConsistent}
use necroauth.World.Keeps.{IsValid, set_same}
use necroauth.World.Transfer.{bind_ok}

-- A transfer to no cell follows a null pointer, once the entity has left its owner.
transfer-nowhere :
    (above : ℕ → ℕ → Bool) (w : World) (id c : ℕ) (e : Entity)
    → IsConsistent w
    → w.all_entities id ≡ some e
    → e.owner ≡ some c
    → e.next_owner ≡ none
    → transfer_to_cell_immediately above id none w ≡ fault Fault.null_pointer
unfolding transfer_to_cell_immediately
transfer-nowhere above w id c e h there owner nowhere =
    let (ids, removed, _) = remove_entity_ptr-IsCleared w id c e h there owner in
    rw (there, owner, removed)
      (ap
        (λ o. deref (given none o) >>= λ d.
          add_entity_ptr above d id (put_cell (put w id (record e { owner = none })) c ids) >>= λ u.
          deref (u.all_entities id) >>= λ f. ok (put u id (record f { next_owner = none })))
        nowhere)

-- In a valid world, the update of an entity whose position has come over a grid cell that is not on
-- the map asks for a transfer to a null pointer, and the transfers then due follow it.
pub leaving-null_pointer :
    (above : ℕ → ℕ → Bool) (w : World) (id : ℕ) (e : Entity) (g : Grid)
    → IsValid w
    → w.all_entities id ≡ some e
    → moved e.grid g ≡ true
    → get_cell_at g ≡ none
    → (update_entity id g (record w { waiting = [] }) >>= λ v. transfer_pending above v.waiting v)
      ≡ fault Fault.null_pointer
unfolding update_entity transfer_to_cell_queue transfer_pending
leaving-null_pointer above w id e g h there other outside =
    let s = h.settled id e there in
    let f = record e { grid = g } in
    let f' = record f { next_owner = none } in
    let w' = put (record w { waiting = [] }) id f in
    let v = record (put w' id f') { waiting = id ∷ [] } in
    let asked : update_entity id g (record w { waiting = [] }) ≡ ok v =
      rw (there, s.owner, other, ==_refl id)
        (ap
          (λ o.
            ok
              (record (put (put w id (record f { owner = some s.cell })) id
                (record f { owner = some s.cell; next_owner = o })) { waiting = id ∷ [] }))
          outside) in
    let consistent =
      put-IsConsistent w' id f f' (put-IsConsistent w id e f h.consistent there refl)
        (set_same w.all_entities id id (some f) (==_refl id)) refl in
    bind_ok (λ v. transfer_pending above v.waiting v) asked
    ∙ ap (λ r. r >>= λ u. transfer_pending above [] u)
        (transfer-nowhere above v id s.cell f' consistent
          (set_same w'.all_entities id id (some f') (==_refl id)) s.owner refl)
