-- ===== src/World.antt =====
-- NECROClient/Engine/World: which cell of the map owns which entity. Of Entity.cpp the transfer
-- between cells is here, of World.cpp and Cell.cpp what adds, finds, moves and removes entities;
-- drawing, lighting and the cursor are left out. A pointer to an entity is its ID, which the
-- constructor makes unique; a pointer to a cell is its index in `m_worldmap`.
pub mod Count
pub mod Place
pub mod Keeps
pub mod Transfer
pub mod Update
pub mod Move
pub mod Sweep
pub mod Edge
use necroauth.Prelude.{
  ℕ, zero, suc, ◌+◌, ◌*◌, ◌-◌, Bool, true, false, ◌==◌, ◌&&◌, not, ltb, if◌then◌else◌, List, [],
  ◌∷◌, ◌++◌, take, drop, get_elem?, length, Option, none, some, Result, ok, fault, Fault, ◌>>=◌, ℤ,
  pos, negsuc,
}

-- `WORLD_WIDTH` and `WORLD_HEIGHT`
abbrev pub world_width : ℕ
world_width = 50

abbrev pub world_height : ℕ
world_height = 50

-- A cell of the grid, `m_gridPosX` and `m_gridPosY`.
pub record Grid : Type 0 where
  pub x : ℤ
  pub y : ℤ

-- What `Entity` keeps of its place. A float is its bit pattern.
pub record Entity : Type 0 where
  pub owner : Option ℕ
  pub next_owner : Option ℕ
  pub grid : Grid
  pub z_modifier_value : ℕ

-- `m_allEntities`, the `m_entities` and `m_zModifier` of each cell, and
-- `m_entitiesWaitingForTransfer`.
pub record World : Type 0 where
  pub all_entities : ℕ → Option Entity
  pub cells : ℕ → List ℕ
  pub z_modifiers : ℕ → ℕ
  pub waiting : List ℕ

abbrev pub set {ℓ} : {A : Type ℓ} → (ℕ → A) → ℕ → A → ℕ → A
set f k a i = if i == k then a else f i

abbrev pub below : ℤ → ℕ → Bool
below (pos n) w = ltb n w
below (negsuc n) w = false

-- `IsInWorldBounds(int x, int y)`
abbrev pub is_in_world_bounds : Grid → Bool
is_in_world_bounds g = below g.x world_width && below g.y world_height

abbrev pub index : ℤ → ℤ → ℕ
index (pos a) (pos b) = a * world_height + b
index _ _ = 0

-- `GetCellAt(int x, int y)`
abbrev pub get_cell_at : Grid → Option ℕ
get_cell_at g = if is_in_world_bounds g then some (index g.x g.y) else none

-- Access through a pointer.
abbrev pub deref {ℓ} : {A : Type ℓ} → Option A → Result A
deref none = fault Fault.null_pointer
deref (some a) = ok a

-- `at` of a container throws when there is nothing.
abbrev pub at {ℓ} : {A : Type ℓ} → Option A → Result A
at none = fault Fault.thrown
at (some a) = ok a

abbrev pub put : World → ℕ → Entity → World
put w id e = record w { all_entities = set w.all_entities id (some e) }

abbrev pub put_cell : World → ℕ → List ℕ → World
put_cell w c ids = record w { cells = set w.cells c ids }

-- `Cell::RemoveEntityPtr(size_t)`; `m_entities.at(idx)` throws beyond the end.
unfoldable pub remove_ptr_at : ℕ → ℕ → World → Result World
remove_ptr_at c i w = do
  id ← at (get_elem? (w.cells c) i)
  e ← deref (w.all_entities id)
  ok (
      put_cell (put w id (record e { owner = none })) c
        (take i (w.cells c) ++ drop (suc i) (w.cells c)))

-- The loop of `Cell::RemoveEntityPtr(uint32_t)`, which asks each entity for its ID.
unfoldable pub find_ptr : World → List ℕ → ℕ → Result (Option ℕ)
find_ptr w [] id = ok none
find_ptr w (p ∷ ps) id = do
  e ← deref (w.all_entities p)
  let rest = find_ptr w ps id
  if p == id
      then ok (some 0)
      else (rest >>= λ o. ok (elim o [ none ↦ none | some i ↦ some (suc i) ]))

-- `Cell::RemoveEntityPtr(uint32_t)`
unfoldable pub remove_found : ℕ → Option ℕ → World → Result World
remove_found c none w = ok w
remove_found c (some i) w = remove_ptr_at c i w

unfoldable pub remove_entity_ptr : ℕ → ℕ → World → Result World
unfolding remove_found
remove_entity_ptr c id w = find_ptr w (w.cells c) id >>= λ o. remove_found c o w

-- `Cell::GetEntityPtr(uint32_t)` and `GetEntityPtrAt(size_t)`
unfoldable pub get_entity_ptr : World → ℕ → ℕ → Result (Option ℕ)
get_entity_ptr w c id = do
  o ← find_ptr w (w.cells c) id
  ok (elim o [ none ↦ none | some i ↦ get_elem? (w.cells c) i ])

-- What `std::unordered_map::insert` does: nothing to a key that is there.
abbrev pub insert_over : Option Entity → ℕ → Entity → (ℕ → Option Entity) → ℕ → Option Entity
insert_over none id e all = set all id (some e)
insert_over (some old) id e all = all

unfoldable pub insert_entity : ℕ → Entity → (ℕ → Option Entity) → ℕ → Option Entity
insert_entity id e all = insert_over (all id) id e all

-- `World::RemoveEntity(uint32_t)`
unfoldable pub remove_entity : ℕ → World → Result World
remove_entity id w = do
  e ← at (w.all_entities id)
  c ← deref e.owner
  v ← remove_entity_ptr c id w
  ok (record v { all_entities = set v.all_entities id none })

-- `Entity::TransferToCellQueue(Cell*)`
unfoldable pub transfer_to_cell_queue : ℕ → Option ℕ → World → Result World
transfer_to_cell_queue id c w = do
  e ← deref (w.all_entities id)
  owner ← deref e.owner
  ok (record (put w id (record e { next_owner = c })) { waiting = w.waiting ++ id ∷ [] })

abbrev pub int_eq : ℤ → ℤ → Bool
int_eq (pos a) (pos b) = a == b
int_eq (negsuc a) (negsuc b) = a == b
int_eq _ _ = false

abbrev pub moved : Grid → Grid → Bool
moved g h = not (int_eq g.x h.x && int_eq g.y h.y)

-- What `Entity::Update` does to the entity's place, when its position is over the grid cell `g`. It
-- reads the owner's coordinates before it asks for the transfer.
unfoldable pub update_entity : ℕ → Grid → World → Result World
update_entity id g w = do
  e ← deref (w.all_entities id)
  owner ← deref e.owner
  let v = put w id (record e { grid = g })
  if moved e.grid g then transfer_to_cell_queue id (get_cell_at g) v else ok v

-- `Cell::Update`, for the entities of a cell.
unfoldable pub update_all : (ℕ → Grid) → List ℕ → World → Result World
update_all moves [] w = ok w
update_all moves (id ∷ ids) w = update_entity id (moves id) w >>= λ v. update_all moves ids v

unfoldable pub update_cells : (ℕ → Grid) → List ℕ → World → Result World
update_cells moves [] w = ok w
update_cells moves (c ∷ cs) w = update_all moves (w.cells c) w >>= λ v. update_cells moves cs v

-- The visible cells, in the order of the two loops of `World::Update`.
range : ℕ → ℕ → List ℕ
range a zero = []
range a (suc n) = a ∷ range (suc a) n

column : ℕ → List ℕ → List ℕ
column x [] = []
column x (y ∷ ys) = (x * world_height + y) ∷ column x ys

columns : List ℕ → List ℕ → List ℕ
columns [] ys = []
columns (x ∷ xs) ys = column x ys ++ columns xs ys

pub visible_cells : ℕ → ℕ → ℕ → ℕ → List ℕ
unfolding range column columns
visible_cells min_x max_x min_y max_y =
    columns (range min_x (max_x - min_x)) (range min_y (max_y - min_y))

-- The null pointer stands for `m_nextOwner`.
abbrev pub given : Option ℕ → Option ℕ → Option ℕ
given none next = next
given (some d) next = some d

-- What depends on the comparison of floats, `above a b` for `a > b`; zero is the pattern 0.
module _ (above : ℕ → ℕ → Bool) where
  -- `Cell::AddEntityPtr(Entity*)`
  unfoldable pub add_entity_ptr : ℕ → ℕ → World → Result World
  add_entity_ptr c id w = do
    e ← deref (w.all_entities id)
    let z = e.z_modifier_value
    let v = put_cell (put w id (record e { owner = some c })) c (w.cells c ++ id ∷ [])
    ok (
        if above z 0 && above z (w.z_modifiers c)
        then record v { z_modifiers = set w.z_modifiers c z }
        else v)

  abbrev pub add_over : Option ℕ → ℕ → World → World → Result World
  add_over none id entered w = ok w
  add_over (some c) id entered w = add_entity_ptr c id entered

  -- `World::AddEntity`, of an entity over the grid cell `g`. The model enters it into the map first,
  -- where `AddEntityPtr` finds it; out of bounds it is destroyed.
  unfoldable pub add_entity : ℕ → Entity → Grid → World → Result World
  add_entity id e g w =
      add_over (get_cell_at g) id
        (record w { all_entities = insert_entity id (record e { grid = g }) w.all_entities }) w

  -- `Entity::TransferToCellImmediately(Cell*)`
  unfoldable pub transfer_to_cell_immediately : ℕ → Option ℕ → World → Result World
  transfer_to_cell_immediately id c w = do
    e ← deref (w.all_entities id)
    owner ← deref e.owner
    v ← remove_entity_ptr owner id w
    d ← deref (given c e.next_owner)
    u ← add_entity_ptr d id v
    f ← deref (u.all_entities id)
    ok (put u id (record f { next_owner = none }))

  -- `World::TransferPendingEntities`
  unfoldable pub transfer_pending : List ℕ → World → Result World
  transfer_pending [] w = ok w
  transfer_pending (id ∷ ids) w =
      transfer_to_cell_immediately id none w >>= λ v. transfer_pending ids v

  -- What `World::Update` does to the entities, where `moves` tells over which grid cell the position
  -- of each one is, and `visible` which cells are updated.
  unfoldable pub update : (ℕ → Grid) → List ℕ → World → Result World
  update moves visible w = do
    v ← update_cells moves visible (record w { waiting = [] })
    transfer_pending v.waiting v
