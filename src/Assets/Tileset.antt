-- ===== src/Assets/Tileset.antt =====
-- NECROClient/Engine/Assets/TilesetDef.h and TilesetDef.cpp: the tiles of the map by their numbers.
-- The images are the assets manager's; a file is its bytes. What `TryParseFloat` makes of a text is
-- left as the text.
pub mod Lookup
pub mod File
pub mod Printed
pub mod Loaded
use necroauth.Prelude.{
  ℕ, zero, suc, ◌+◌, ◌-◌, Bool, true, false, if◌then◌else◌, ◌==◌, ltb, leb, List, [], ◌∷◌, ◌++◌,
  length, get_or, get_elem?, drop, take, Option, none, some, Result, ok, fault, Fault, ◌>>=◌, ℤ,
  pos, negsuc,
}
use necroauth.Assets.Fields.{find, find_from, read_row}
use necroauth.Console.Text.{try_parse_int}
use necroauth.Console.Command.{codes}
use necroauth.Server.Session.{bytes_eq}

-- `Image`, as far as a `TilesetDef` looks at it: the columns and rows of its tile set, if it is one.
pub record Image : Type 0 where
  pub tileset : Option (ℕ × ℕ)

pub record TileData : Type 0 where
  pub z_offset : ℤ
  pub collider_enabled : Bool
  pub coll_offset_x : ℤ
  pub coll_offset_y : ℤ
  pub coll_width : ℤ
  pub coll_height : ℤ
  pub occlusion_enabled : Bool
  pub occl_off_x : ℤ
  pub occl_off_y : ℤ
  pub z_cell_modifier : List ℕ

pub record TilesetDef : Type 0 where
  pub loaded : Bool
  pub name : List ℕ
  pub n_tilesets : ℕ
  pub resources : List Image
  pub resource_end_map : List (ℕ × ℕ)
  pub tiles : List (ℕ × ℕ)
  pub tiles_data : List (ℤ × TileData)

-- A `TilesetDef` on which `LoadFromFile` has read the name, with the local variables of the loop.
pub record Loading : Type 0 where
  pub def : TilesetDef
  pub cur_id : ℕ
  pub cur_tileset_indx : ℕ

abbrev pub fresh : List ℕ → Loading
fresh name = record {
  def = record {
    loaded = false;
    name = name;
    n_tilesets = 0;
    resources = [];
    resource_end_map = [];
    tiles = (0, 0) ∷ [];
    tiles_data = [];
  };
  cur_id = 1;
  cur_tileset_indx = 0;
}

-- The two loops over the tiles of an image: row by row.
unfoldable pub tiles_of_row : ℕ → ℕ → ℕ → List (ℕ × ℕ)
tiles_of_row zero x y = []
tiles_of_row (suc n) x y = (x, y) ∷ tiles_of_row n (x + 1) y

unfoldable pub tiles_of : ℕ → ℕ → ℕ → List (ℕ × ℕ)
unfolding tiles_of_row
tiles_of columns zero y = []
tiles_of columns (suc n) y = tiles_of_row columns 0 y ++ tiles_of columns n (y + 1)

abbrev pub image_tiles : Image → List (ℕ × ℕ)
image_tiles i = elim i.tileset [ none ↦ [] | some (columns, rows) ↦ tiles_of columns rows 0 ]

-- The first line of a tile set, once its image is there. `curID` counts the tiles that are pushed.
unfoldable pub load_image : Image → Loading → Loading
load_image i l =
    let ts = image_tiles i in
    let next = l.cur_id + length ts in
    record l {
      def = record l.def {
        resources = l.def.resources ++ i ∷ [];
        tiles = l.def.tiles ++ ts;
        resource_end_map = l.def.resource_end_map ++ (l.cur_tileset_indx, next - 1) ∷ [];
      };
      cur_id = next;
    }

-- The line `END`.
unfoldable pub end_tileset : Loading → Loading
end_tileset l = record l {
  def = record l.def { n_tilesets = l.def.n_tilesets + 1 };
  cur_tileset_indx = l.cur_tileset_indx + 1;
}

-- `m_loaded = true;`
unfoldable pub done : Loading → TilesetDef
done l = record l.def { loaded = true }

-- `GetTile(int)`
unfoldable pub get_tile : TilesetDef → ℤ → ℕ × ℕ
get_tile d (pos i) = get_or d.tiles i (0, 0)
get_tile d (negsuc i) = (0, 0)

-- `GetResourceEndMap(int)`, whose body is that of `GetTile`.
unfoldable pub get_resource_end_map : TilesetDef → ℤ → ℕ × ℕ
get_resource_end_map d (pos i) = get_or d.tiles i (0, 0)
get_resource_end_map d (negsuc i) = (0, 0)

-- `GetResource(int)`
unfoldable pub get_resource : TilesetDef → ℤ → Option Image
get_resource d (pos i) = get_elem? d.resources i
get_resource d (negsuc i) = none

abbrev pub leℤ : ℤ → ℕ → Bool
leℤ (pos i) n = leb i n
leℤ (negsuc i) n = true

-- The loop of `GetResourceIndexFromID`, over the rest of the map; `at` throws at its end.
unfoldable pub index_loop : ℕ → List (ℕ × ℕ) → ℕ → ℤ → Result ℤ
index_loop zero ends i id = ok (pos 0)
index_loop (suc n) [] i id = fault Fault.thrown
index_loop (suc n) ((_, last) ∷ ends) i id =
    let rest = index_loop n ends (i + 1) id in if leℤ id last then ok (pos i) else rest

-- `GetResourceIndexFromID(int)`
unfoldable pub get_resource_index_from_id : TilesetDef → ℤ → Result ℤ
get_resource_index_from_id d id =
    if d.loaded then index_loop d.n_tilesets d.resource_end_map 0 id else ok (negsuc 0)
