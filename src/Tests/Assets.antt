-- ===== src/Tests/Assets.antt =====
-- A row of a map, and two images of a tile set.
use necroauth.Prelude.{
  if◌then◌else◌, ℕ, ◌≡◌, List, [], ◌∷◌, ◌++◌, some, ok, fault, Fault, refl, arith,
}
use necroauth.Assets.Fields.{read_row, with_commas, read_row-with_commas}
use necroauth.Assets.Tileset.{Image, TilesetDef, fresh}
use necroauth.Assets.Tileset.File.{Images, load_body, load_from_file}
use necroauth.Assets.Tileset.Printed.{Block, tile, commented, AreListed, printed}
use necroauth.Assets.Tileset.Loaded.{Finds, load_from_file-Finds}
use necroauth.Server.Session.{bytes_eq}

-- "12,7, "
abbrev columns : List (List ℕ)
columns = (b'1' ∷ b'2' ∷ []) ∷ (b'7' ∷ []) ∷ []

abbrev space : List ℕ
space = b' ' ∷ []

read_row-with_commas_example :
    (read_row 2 (with_commas columns ++ space) 0 ≡ columns)
    × (read_row 4 (with_commas columns ++ space) 0
        ≡ columns ++ space ∷ read_row 1 (with_commas columns ++ space) 0)
read_row-with_commas_example = read_row-with_commas 1 columns space ((refl, tt), (tt, tt)) tt

abbrev desert : Image
desert = record { tileset = some (3, 2) }

abbrev trees : Image
trees = record { tileset = some (2, 4) }

abbrev desert_name : List ℕ
desert_name = b'd' ∷ []

abbrev trees_name : List ℕ
trees_name = b't' ∷ []

abbrev images : Images
images name = if bytes_eq name desert_name then some desert else some trees

-- "#", "1,2", and "3".
abbrev desert_block : Block
desert_block = record {
  file = desert_name;
  image = desert;
  rows = commented (b'#' ∷ []) (b'1' ∷ b',' ∷ b'2' ∷ []) ∷ tile (b'3' ∷ []) ∷ [];
}

abbrev trees_block : Block
trees_block = record { file = trees_name; image = trees; rows = [] }

abbrev two_images : List ℕ
two_images = printed desert_name (desert_block ∷ trees_block ∷ [])

both_listed : AreListed images (desert_block ∷ trees_block ∷ [])
unfolding bytes_eq
both_listed = (
  ((refl, tt), (refl, tt)),
  refl,
  refl,
  (
    ((refl, tt), refl, refl),
    refl,
    (refl, (refl, (refl, tt))),
    (((refl, tt), refl, refl), refl, tt),
  ),
  (((refl, tt), (refl, tt)), refl, refl, tt, tt),
)

load_from_file-Finds_example :
    (d : TilesetDef) × (load_body 9 images two_images ≡ some (ok d))
    × (load_from_file 9 images (fresh []).def (some two_images) ≡ some (fault Fault.no_return))
    × Finds d (desert ∷ []) trees 2 1 3
load_from_file-Finds_example =
    load_from_file-Finds 9 images (fresh []).def desert_name (desert_block ∷ []) [] trees_block 2 4
      1 3 ((refl, tt), (refl, tt)) both_listed (omega arith) refl (omega arith) (omega arith)
