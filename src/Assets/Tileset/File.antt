-- ===== src/Assets/Tileset/File.antt =====
-- `TilesetDef::LoadFromFile`: the file, line by line.
use necroauth.Prelude.{
  ℕ, zero, suc, ◌+◌, Bool, true, false, if◌then◌else◌, ◌==◌, leb, not, List, [], ◌∷◌, length, drop,
  take, Option, none, some, Result, ok, fault, Fault, ◌>>=◌, ℤ, pos, negsuc,
}
use necroauth.Assets.Fields.{find, read_row}
use necroauth.Assets.Tileset.{
  Image, TileData, TilesetDef, Loading, fresh, load_image, end_tileset, done,
}
use necroauth.Console.Text.{try_parse_int}
use necroauth.Console.Command.{codes}
use necroauth.Server.Session.{bytes_eq}

-- `std::ifstream`: what is left of it, and whether it is still good.
pub record Stream : Type 0 where
  pub left : List ℕ
  pub good : Bool

-- The bytes before the next line feed, those behind it, and whether there was one.
unfoldable pub cut_line : List ℕ → List ℕ × List ℕ × Bool
cut_line [] = ([], [], false)
cut_line (b ∷ bs) =
    let (line, left, ended) = cut_line bs in
    if b == 10 then ([], bs, true) else (b ∷ line, left, ended)

-- `std::getline(stream, line)`, which leaves the line alone once the stream is not good.
unfoldable pub getline : Stream → List ℕ → List ℕ × Stream
unfolding cut_line
getline s line =
    let (next, left, ended) = cut_line s.left in
    if s.good then (next, record { left = left; good = ended }) else (line, s)

-- `line.find(text) != npos`
abbrev pub starts_with : List ℕ → List ℕ → Bool
starts_with [] line = true
starts_with (c ∷ cs) [] = false
starts_with (c ∷ cs) (b ∷ bs) = if b == c then starts_with cs bs else false

abbrev pub contains : List ℕ → List ℕ → Bool
contains text [] = starts_with text []
contains text (b ∷ bs) = if starts_with text (b ∷ bs) then true else contains text bs

-- `line.substr(line.find("=") + 2)` and then `substr(0, find(";"))`. Without an equals sign the sum
-- wraps to 1; `substr` throws behind the end.
unfoldable pub value_start : Option ℕ → ℕ
value_start none = 1
value_start (some i) = i + 2

unfoldable pub up_to : List ℕ → Option ℕ → List ℕ
up_to s none = s
up_to s (some n) = take n s

unfoldable pub value_at : List ℕ → ℕ → Result (List ℕ)
value_at line start =
    if leb start (length line)
    then ok (up_to (drop start line) (find b';' (drop start line)))
    else fault Fault.thrown

unfoldable pub value_of : List ℕ → Result (List ℕ)
unfolding find value_start up_to value_at
value_of line = value_at line (value_start (find b'=' line))

abbrev to_bool : ℤ → Bool
to_bool (pos n) = not (n == 0)
to_bool (negsuc n) = true

-- The eleven columns of a line about one tile.
unfoldable pub tile_data : List (List ℕ) → Option (ℤ × TileData)
tile_data (id ∷ z ∷ c ∷ cx ∷ cy ∷ cw ∷ ch ∷ o ∷ ox ∷ oy ∷ zm ∷ rest) = some (
  try_parse_int id,
  record {
    z_offset = try_parse_int z;
    collider_enabled = to_bool (try_parse_int c);
    coll_offset_x = try_parse_int cx;
    coll_offset_y = try_parse_int cy;
    coll_width = try_parse_int cw;
    coll_height = try_parse_int ch;
    occlusion_enabled = to_bool (try_parse_int o);
    occl_off_x = try_parse_int ox;
    occl_off_y = try_parse_int oy;
    z_cell_modifier = zm;
  },
)
tile_data _ = none

abbrev pub z_eq : ℤ → ℤ → Bool
z_eq (pos a) (pos b) = a == b
z_eq (negsuc a) (negsuc b) = a == b
z_eq _ _ = false

-- `GetTileData(int)`
unfoldable pub find_data : ℤ → List (ℤ × TileData) → Option TileData
find_data id [] = none
find_data id ((k, d) ∷ m) = if z_eq k id then some d else find_data id m

abbrev pub get_tile_data : TilesetDef → ℤ → Option TileData
get_tile_data d id = find_data id d.tiles_data

-- `insert` keeps the entry that is there.
unfoldable pub insert_data : Option (ℤ × TileData) → List (ℤ × TileData) → List (ℤ × TileData)
insert_data none m = m
insert_data (some (id, d)) m = elim (find_data id m) [ none ↦ (id, d) ∷ m | some old ↦ m ]

unfoldable pub add_tile_data : List ℕ → Loading → Loading
unfolding insert_data
add_tile_data line l = record l {
  def = record l.def { tiles_data = insert_data (tile_data (read_row 11 line 0)) l.def.tiles_data };
}

-- What a line inside of a tile set does: it names the image, or it is a comment, whose next line is
-- then read, or it is about one tile. `GetImage` finds an image by its name.
abbrev pub Images : Type 0
Images = List ℕ → Option Image

unfoldable pub load_src : Images → List ℕ → Loading → Result Loading
load_src images line l = value_of line >>= λ name. elim (images name) [
  | none ↦ fault Fault.null_pointer
  | some i ↦ ok (load_image i l)
]

-- After it, the stream and the line.
on_data : List ℕ → Stream → Loading → Result (Loading × List ℕ × Stream)
on_data [] s l = fault Fault.thrown
on_data (b ∷ bs) s l =
    let (line, s') = if b == b'#' then getline s (b ∷ bs) else (b ∷ bs, s) in
    ok (add_tile_data line l, line, s')

unfoldable pub on_line : Images → List ℕ → Stream → Loading → Result (Loading × List ℕ × Stream)
unfolding on_data
on_line images line s l =
    if contains (codes "src") line
    then (load_src images line l >>= λ l'. ok (l', line, s))
    else on_data line s l

-- The two loops, the inner one where `inner` holds; `none` if the rounds do not suffice.
unfoldable pub load_loop :
    ℕ → Images → Bool → List ℕ → Stream → Loading → Option (Result TilesetDef)
load_loop zero images inner line s l = none
load_loop (suc n) images false line s l =
    let (next, s') = getline s line in
    let rest = load_loop n images true next s' l in
    if contains (codes "ENDTILESETS") next then some (ok (done l)) else rest
load_loop (suc n) images true line s l = elim (bytes_eq line (codes "END")) [
  | true ↦ load_loop n images false line s (end_tileset l)
  | false ↦ elim (on_line images line s l) [
    | fault x ↦ some (fault x)
    | ok r ↦ let (next, s') = getline r.2 r.1 in load_loop n images true next s' r.0
  ]
]

-- The body of `LoadFromFile`, on a new object and a file that can be opened: the object with which it
-- reaches its end. The first line names the tile sets.
unfoldable pub load_named :
    ℕ → Images → List ℕ × Stream → Result (List ℕ) → Option (Result TilesetDef)
load_named fuel images first (fault x) = some (fault x)
load_named fuel images (line, s) (ok name) = load_loop fuel images false line s (fresh name)

unfoldable pub load_body : ℕ → Images → List ℕ → Option (Result TilesetDef)
unfolding load_named
load_body fuel images file =
    let first = getline (record { left = file; good = true }) [] in
    load_named fuel images first (value_of first.0)

-- The end of the body has no `return`.
unfoldable pub flows_off : Result TilesetDef → Result (TilesetDef × Bool)
flows_off (fault x) = fault x
flows_off (ok d) = fault Fault.no_return

-- `LoadFromFile`, on a new object; no file is one that cannot be opened.
unfoldable pub load_from_file :
    ℕ → Images → TilesetDef → Option (List ℕ) → Option (Result (TilesetDef × Bool))
unfolding load_body flows_off
load_from_file fuel images d none = some (ok (d, false))
load_from_file fuel images d (some file) = elim (load_body fuel images file) [
  | none ↦ none
  | some r ↦ some (flows_off r)
]
