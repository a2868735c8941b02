-- ===== src/Assets/Tileset/Lookup.antt =====
-- `TilesetDef`: which image and which part of it a tile's number stands for.
use necroauth.Prelude.{
  ℕ, zero, suc, ◌+◌, ◌-◌, ◌*◌, ◌≤◌, ◌<◌, ◌≡◌, refl, sym, ap, ap₂, ◌∙◌, true, false, leb, le→leb,
  List, [], ◌∷◌, ◌++◌, length, get_or, get_elem?, append_assoc, append-nil, length-append, some, ok,
  pos, arith,
}
use necroauth.Assets.Tileset.{
  Image, TilesetDef, Loading, fresh, tiles_of_row, tiles_of, image_tiles, load_image, end_tileset,
  done, get_tile, get_resource, get_resource_index_from_id, index_loop,
}

-- A file with these images, one after another.
unfoldable pub load_all : List Image → Loading → Loading
load_all [] l = l
load_all (i ∷ is) l = load_all is (end_tileset (load_image i l))

abbrev all_tiles : List Image → List (ℕ × ℕ)
all_tiles [] = []
all_tiles (i ∷ is) = image_tiles i ++ all_tiles is

-- The entries of the end map, from the number of the next tile and the index of the next image.
abbrev ends : List Image → ℕ → ℕ → List (ℕ × ℕ)
ends [] c k = []
ends (i ∷ is) c k =
    (k, c + length (image_tiles i) - 1) ∷ ends is (c + length (image_tiles i)) (k + 1)

record Loads (is : List Image) (l m : Loading) : Type 0 where
  tiles : m.def.tiles ≡ l.def.tiles ++ all_tiles is
  cur_id : m.cur_id ≡ l.cur_id + length (all_tiles is)
  end_map : m.def.resource_end_map ≡ l.def.resource_end_map ++ ends is l.cur_id l.cur_tileset_indx
  resources : m.def.resources ≡ l.def.resources ++ is
  count : m.def.n_tilesets ≡ l.def.n_tilesets + length is

load_all-Loads : (is : List Image) (l : Loading) → Loads is l (load_all is l)
unfolding load_all end_tileset load_image
load_all-Loads [] l = record {
  tiles = sym (append-nil l.def.tiles);
  cur_id = omega arith;
  end_map = sym (append-nil l.def.resource_end_map);
  resources = sym (append-nil l.def.resources);
  count = omega arith;
}
load_all-Loads (i ∷ is) l =
    let h = load_all-Loads is (end_tileset (load_image i l)) in
    record {
      tiles = h.tiles ∙ append_assoc l.def.tiles (image_tiles i) (all_tiles is);
      cur_id = omega (arith, h.cur_id, length-append (image_tiles i) (all_tiles is));
      end_map =
          h.end_map
          ∙ append_assoc l.def.resource_end_map
              ((l.cur_tileset_indx, l.cur_id + length (image_tiles i) - 1) ∷ [])
              (ends is (l.cur_id + length (image_tiles i)) (l.cur_tileset_indx + 1));
      resources = h.resources ∙ append_assoc l.def.resources (i ∷ []) is;
      count = omega (arith, h.count);
    }

length-tiles_of_row : (n x y : ℕ) → length (tiles_of_row n x y) ≡ n
unfolding tiles_of_row
length-tiles_of_row zero x y = refl
length-tiles_of_row (suc n) x y = ap suc (length-tiles_of_row n (x + 1) y)

get_or-tiles_of_row :
    (n x y k : ℕ) (d : ℕ × ℕ) → k < n → get_or (tiles_of_row n x y) k d ≡ (x + k, y)
unfolding tiles_of_row
get_or-tiles_of_row zero x y k d h = absurd (omega arith)
get_or-tiles_of_row (suc n) x y zero d h = ap (λ (a : ℕ). (a, y)) (omega arith)
get_or-tiles_of_row (suc n) x y (suc k) d h =
    get_or-tiles_of_row n (x + 1) y k d (omega arith) ∙ ap (λ (a : ℕ). (a, y)) (omega arith)

module _ {A : Type 0} where
  get_or-append_lt :
      (xs ys : List A) (k : ℕ) (d : A) → k < length xs → get_or (xs ++ ys) k d ≡ get_or xs k d
  get_or-append_lt [] ys k d h = absurd (omega arith)
  get_or-append_lt (x ∷ xs) ys zero d h = refl
  get_or-append_lt (x ∷ xs) ys (suc k) d h = get_or-append_lt xs ys k d (omega arith)

  get_or-append_add :
      (xs ys : List A) (n k : ℕ) (d : A) → n ≡ length xs + k → get_or (xs ++ ys) n d ≡ get_or ys k d
  get_or-append_add [] ys n k d e = ap (λ i. get_or ys i d) (omega arith)
  get_or-append_add (x ∷ xs) ys zero k d e = absurd (omega arith)
  get_or-append_add (x ∷ xs) ys (suc n) k d e = get_or-append_add xs ys n k d (omega arith)

  get_elem?-append_length : (xs ys : List A) (y : A) → get_elem? (xs ++ y ∷ ys) (length xs) ≡ some y
  get_elem?-append_length [] ys y = refl
  get_elem?-append_length (x ∷ xs) ys y = get_elem?-append_length xs ys y

length-tiles_of : (c n y : ℕ) → length (tiles_of c n y) ≡ n * c
unfolding tiles_of
length-tiles_of c zero y = omega arith
length-tiles_of c (suc n) y =
    length-append (tiles_of_row c 0 y) (tiles_of c n (y + 1))
    ∙ grind (arith, length-tiles_of_row c 0 y, length-tiles_of c n (y + 1))

get_or-tiles_of :
    (c n y0 x y : ℕ) (d : ℕ × ℕ)
    → x < c
    → y < n
    → get_or (tiles_of c n y0) (y * c + x) d ≡ (x, y0 + y)
unfolding tiles_of
get_or-tiles_of c zero y0 x y d h k = absurd (omega arith)
get_or-tiles_of c (suc n) y0 x zero d h k =
    ap (λ i. get_or (tiles_of c (suc n) y0) i d) (omega arith)
    ∙ get_or-append_lt (tiles_of_row c 0 y0) (tiles_of c n (y0 + 1)) x d
        (omega (arith, length-tiles_of_row c 0 y0))
    ∙ get_or-tiles_of_row c 0 y0 x d h
    ∙ ap₂ (λ (a b : ℕ). (a, b)) (omega arith) (omega arith)
get_or-tiles_of c (suc n) y0 x (suc y) d h k =
    get_or-append_add (tiles_of_row c 0 y0) (tiles_of c n (y0 + 1)) (suc y * c + x) (y * c + x) d
      (grind (arith, length-tiles_of_row c 0 y0))
    ∙ get_or-tiles_of c n (y0 + 1) x y d h (omega arith)
    ∙ ap (λ (b : ℕ). (x, b)) (omega arith)

-- The search over the end map stops at the image that the number falls into.
index_loop-ends :
    (before after : List Image) (i : Image) (c k j n : ℕ)
    → 0 < c
    → c + length (all_tiles before) ≤ n
    → n < c + length (all_tiles before) + length (image_tiles i)
    → index_loop (length (before ++ i ∷ after)) (ends (before ++ i ∷ after) c k) j (pos n)
      ≡ ok (pos (j + length before))
unfolding index_loop
index_loop-ends [] after i c k j n h lo hi =
    let found : leb n (c + length (image_tiles i) - 1) ≡ true = le→leb _ _ (omega arith) in
    rw found (ap (λ m. ok (pos m)) (omega arith))
index_loop-ends (b ∷ before) after i c k j n h lo hi =
    let split = length-append (image_tiles b) (all_tiles before) in
    let past : leb n (c + length (image_tiles b) - 1) ≡ false = ground (arith, split) in
    rw past (
      index_loop-ends before after i (c + length (image_tiles b)) (k + 1) (j + 1) n (omega arith)
        (omega (arith, split)) (omega (arith, split))
      ∙ ap (λ m. ok (pos m)) (omega arith))

all_tiles-append : (xs ys : List Image) → all_tiles (xs ++ ys) ≡ all_tiles xs ++ all_tiles ys
all_tiles-append [] ys = refl
all_tiles-append (x ∷ xs) ys =
    ap (◌++◌ (image_tiles x)) (all_tiles-append xs ys)
    ∙ sym (append_assoc (image_tiles x) (all_tiles xs) (all_tiles ys))

-- The number of the first tile of an image: 1, and the tiles of the images before it.
abbrev pub first_id : List Image → ℕ
first_id before = (load_all before (fresh [])).cur_id

first_id-length : (before : List Image) → first_id before ≡ 1 + length (all_tiles before)
first_id-length before = (load_all-Loads before (fresh [])).cur_id

abbrev pub loaded : List ℕ → List Image → TilesetDef
loaded name is = done (load_all is (fresh name))

module _ (name : List ℕ) (before after : List Image) (i : Image) (columns rows x y : ℕ)
    (set : i.tileset ≡ some (columns, rows)) (in_row : x < columns) (in_column : y < rows) where
  abbrev all : List Image
  all = before ++ i ∷ after

  inside : y * columns + x < rows * columns
  inside = grind arith

  own : image_tiles i ≡ tiles_of columns rows 0
  own = rw set refl

  size : length (image_tiles i) ≡ rows * columns
  size = ap {B = ℕ} length own ∙ length-tiles_of columns rows 0

  get_tile_lem : get_tile (loaded name all) (pos (first_id before + (y * columns + x))) ≡ (x, y)
  unfolding get_tile done
  get_tile_lem =
      ap (λ l. get_or l (first_id before + (y * columns + x)) (0, 0))
        (load_all-Loads all (fresh name)).tiles
      ∙ get_or-append_add ((0, 0) ∷ []) (all_tiles all) _
          (length (all_tiles before) + (y * columns + x)) (0, 0)
          (omega (arith, first_id-length before))
      ∙ ap (λ l. get_or l (length (all_tiles before) + (y * columns + x)) (0, 0))
          (all_tiles-append before (i ∷ after))
      ∙ get_or-append_add (all_tiles before) (image_tiles i ++ all_tiles after) _ (y * columns + x)
          (0, 0) refl
      ∙ get_or-append_lt (image_tiles i) (all_tiles after) (y * columns + x) (0, 0)
          (omega (arith, inside, size))
      ∙ ap (λ l. get_or l (y * columns + x) (0, 0)) own
      ∙ get_or-tiles_of columns rows 0 x y (0, 0) in_row in_column
      ∙ ap (λ (b : ℕ). (x, b)) (omega arith)

  index_lem :
      get_resource_index_from_id (loaded name all) (pos (first_id before + (y * columns + x)))
      ≡ ok (pos (length before))
  unfolding get_resource_index_from_id done
  index_lem =
      let h = load_all-Loads all (fresh name) in
      ap₂ (λ (n : ℕ) l. index_loop n l 0 (pos (first_id before + (y * columns + x)))) h.count
        h.end_map
      ∙ ap (λ n. index_loop n (ends all 1 0) 0 (pos (first_id before + (y * columns + x))))
          (omega arith)
      ∙ index_loop-ends before after i 1 0 0 (first_id before + (y * columns + x)) (omega arith)
          (omega (arith, first_id-length before))
          (omega (arith, first_id-length before, inside, size))
      ∙ ap (λ m. ok (pos m)) (omega arith)

  resource_lem : get_resource (loaded name all) (pos (length before)) ≡ some i
  unfolding get_resource done
  resource_lem =
      ap (λ l. get_elem? l (length before)) (load_all-Loads all (fresh name)).resources
      ∙ get_elem?-append_length before after i

  -- After any images have been loaded, the number of a tile is the number of its image's first tile
  -- and its place in the image, row by row: `GetTile` gives back its column and row,
  -- `GetResourceIndexFromID` the index of its image, and `GetResource` that image.
  pub loaded_lookup :
      (get_tile (loaded name all) (pos (first_id before + (y * columns + x))) ≡ (x, y))
      × (get_resource_index_from_id (loaded name all) (pos (first_id before + (y * columns + x)))
          ≡ ok (pos (length before)))
      × (get_resource (loaded name all) (pos (length before)) ≡ some i)
  loaded_lookup = (get_tile_lem, index_lem, resource_lem)
