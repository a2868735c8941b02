-- ===== src/Assets/Tileset/Loaded.antt =====
-- `TilesetDef`: from the file to the tile that a number stands for.
use necroauth.Prelude.{
  ℕ, ◌+◌, ◌*◌, ◌<◌, ◌≡◌, refl, List, ◌∷◌, ◌++◌, length, some, ok, fault, Fault, pos, ap, ◌∙◌,
}
use necroauth.Assets.Tileset.{
  Image, TilesetDef, fresh, done, get_tile, get_resource, get_resource_index_from_id,
}
use necroauth.Assets.Tileset.Lookup.{load_all, first_id, loaded_lookup}
use necroauth.Assets.Tileset.File.{Images, load_body, load_from_file, flows_off}
use necroauth.Assets.Tileset.Printed.{Block, rounds, IsName, AreListed, printed, images_of}
use necroauth.Assets.Tileset.Printed.Rounds.{with_data, images_of-append, load_body-printed}

-- What the look-ups say of the tile at this column and row of this image, which stands behind those.
pub record Finds (d : TilesetDef) (before : List Image) (i : Image) (columns x y : ℕ) : Type 0 where
  pub tile : get_tile d (pos (first_id before + (y * columns + x))) ≡ (x, y)
  pub image_index :
      get_resource_index_from_id d (pos (first_id before + (y * columns + x)))
      ≡ ok (pos (length before))
  pub resource : get_resource d (pos (length before)) ≡ some i

-- On a file that names the tile sets and lists blocks, each the name of an image, which the assets
-- manager has, and rows about single tiles and comments, where names have no line feeds and
-- semicolons and no line is taken for one of another kind, the body of the function reaches its end
-- within three rounds of the loops for each block, one for each row and one more, and the function
-- flows off that end, which has no `return`. In the object that the body leaves, the number of a tile,
-- which is the number of its image's first tile and its place in the image, row by row, leads back:
-- `GetTile` gives its column and row, `GetResourceIndexFromID` the index of its image, and
-- `GetResource` that image.
pub load_from_file-Finds :
    (fuel : ℕ) (images : Images) (empty : TilesetDef) (name : List ℕ) (before after : List Block)
    (b : Block) (columns rows x y : ℕ)
    → IsName name
    → AreListed images (before ++ b ∷ after)
    → rounds (before ++ b ∷ after) < fuel
    → b.image.tileset ≡ some (columns, rows)
    → x < columns
    → y < rows
    → (d : TilesetDef) × (load_body fuel images (printed name (before ++ b ∷ after)) ≡ some (ok d))
      × (load_from_file fuel images empty (some (printed name (before ++ b ∷ after)))
          ≡ some (fault Fault.no_return))
      × Finds d (images_of before) b.image columns x y
unfolding load_from_file flows_off get_tile get_resource get_resource_index_from_id done
load_from_file-Finds fuel images empty name before after b columns rows x y named listed enough set
      h k =
    let all : List Block = before ++ b ∷ after in
    let (tile, index, resource) =
      loaded_lookup name (images_of before) (images_of after) b.image columns rows x y set h k in
    let (extra, body) = load_body-printed fuel images name all named listed enough in
    let found =
      body
      ∙ ap (λ is. some (ok (done (with_data extra (load_all is (fresh name))))))
          (images_of-append before (b ∷ after)) in
    (
      done
          (with_data extra (load_all (images_of before ++ b.image ∷ images_of after) (fresh name))),
      found,
      rw (found, load_from_file) refl,
      record { tile = tile; image_index = index; resource = resource },
    )
