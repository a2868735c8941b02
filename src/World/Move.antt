-- ===== src/World/Move.antt =====
-- The update of one entity, whether it stays in its grid cell or leaves it.
use necroauth.Prelude.{
  ℕ, ◌≡◌, ==_refl, true, false, ◌⊎◌, inl, inr, [], ◌∷◌, ◌++◌, some, ok, arith, refl, ap, ◌∙◌, sym,
}
use necroauth.World.{
  World, Entity, Grid, get_cell_at, put, moved, transfer_to_cell_queue, update_entity,
}
use necroauth.World.Count.{count, indicator, count-append}
use necroauth.World.Place.{apart}
use necroauth.World.Keeps.{IsSettled, set_same, set_other}
use necroauth.World.Transfer.{IsDue, IsBusy}
use necroauth.World.Update.{
  IsOver, Advances, Replaced, Replaced-Advances, Replaced-IsBusy, unmoved, unmoved_refl,
}

put-Replaced : (w : World) (id : ℕ) (e : Entity) → Replaced id e w (put w id e)
put-Replaced w id e = record {
  cells = refl;
  new = set_same w.all_entities id id (some e) (==_refl id);
  old = λ j other. set_other w.all_entities id j (some e) other;
}

-- An entity is updated.
pub record Updated (moves : ℕ → Grid) (id : ℕ) (w v : World) : Type 0 where
  pub busy : IsBusy moves v.waiting v
  pub over : IsOver moves id v
  pub advances : Advances moves w v

-- It has not left its grid cell.
pub update_entity-stays :
    (moves : ℕ → Grid) (w : World) (id : ℕ) (e : Entity)
    → IsBusy moves w.waiting w
    → w.all_entities id ≡ some e
    → moved e.grid (moves id) ≡ false
    → (v : World) × (update_entity id (moves id) w ≡ ok v) × Updated moves id w v
unfolding update_entity
update_entity-stays moves w id e b there same =
    let g = moves id in
    let f = record e { grid = g } in
    let r = put-Replaced w id f in
    let over : (c : ℕ) → get_cell_at e.grid ≡ some c → get_cell_at g ≡ some c =
      λ c q. ap get_cell_at (sym (unmoved e.grid g same)) ∙ q in
    let updated : (IsSettled f × (count id w.waiting ≡ 0)) ⊎ (IsDue g f × (count id w.waiting ≡ 1))
        → Updated moves id w (put w id f) =
      λ state. record {
        busy = Replaced-IsBusy id e f b there refl r (λ j other. refl) state;
        over = (f, r.new, refl);
        advances = Replaced-Advances id f r refl;
      } in
    elim (b.present id e there) [
      | inl (s, n) ↦ (
        put w id f,
        rw (there, s.owner, same) refl,
        updated (
            inl (
              record {
                cell = s.cell;
                owner = s.owner;
                over = over s.cell s.over;
                none_due = s.none_due;
              },
              n,
            )),
      )
      | inr (d, n) ↦ (
        put w id f,
        rw (there, d.owner, same) refl,
        updated (
            inr (
              record {
                from = d.from;
                to = d.to;
                owner = d.owner;
                next = d.next;
                over = over d.to d.over;
                updated = unmoved_refl g;
              },
              n,
            )),
      )
    ]

-- It has left its grid cell for another one on the map.
pub update_entity-leaves :
    (moves : ℕ → Grid) (w : World) (id c : ℕ) (e : Entity)
    → IsBusy moves w.waiting w
    → w.all_entities id ≡ some e
    → moved e.grid (moves id) ≡ true
    → get_cell_at (moves id) ≡ some c
    → (v : World) × (update_entity id (moves id) w ≡ ok v) × Updated moves id w v
unfolding update_entity transfer_to_cell_queue
update_entity-leaves moves w id c e b there other inside =
    let g = moves id in
    let f = record e { grid = g } in
    let f' = record f { next_owner = some c } in
    let w' = put w id f in
    let v = record (put w' id f') { waiting = w.waiting ++ id ∷ [] } in
    elim (b.present id e there) [
      | inr (d, _) ↦ let q = sym other ∙ d.updated in cc
      | inl (s, n) ↦
          let r : Replaced id f' w v = record {
            cells = refl;
            new = set_same w'.all_entities id id (some f') (==_refl id);
            old = λ j o.
                set_other w'.all_entities id j (some f') o
                ∙ set_other w.all_entities id j (some f) o;
          } in
          (
            v,
            rw (there, s.owner, other, ==_refl id)
                (ap
                  (λ o.
                    ok
                      (record (put (put w id (record f { owner = some s.cell })) id
                        (record f { owner = some s.cell; next_owner = o })) {
                          waiting = w.waiting ++ id ∷ [];
                        }))
                  inside),
            record {
              busy =
                  Replaced-IsBusy id e f' b there refl r
                    (λ j o.
                      count-append j w.waiting (id ∷ [])
                      ∙ omega (arith, ap indicator (apart id j o)))
                    (inr (
                      record {
                        from = s.cell;
                        to = c;
                        owner = s.owner;
                        next = refl;
                        over = inside;
                        updated = unmoved_refl g;
                      },
                      count-append id w.waiting (id ∷ [])
                          ∙ omega (arith, n, ap indicator (==_refl id)),
                    ));
              over = (f', r.new, refl);
              advances = Replaced-Advances id f' r refl;
            },
          )
    ]
