-- ===== src/Assets/Tileset/Printed/Rounds.antt =====
-- `TilesetDef::LoadFromFile`: its two loops on the lines of a printed file, round by round.
use necroauth.Prelude.{
  ℕ, suc, ◌+◌, ◌-◌, Result, ◌<◌, ◌≡◌, refl, ap, ◌∙◌, true, false, List, [], ◌∷◌, ◌++◌, length, some,
  ok, Option, ◌==◌, ℤ, arith,
}
use necroauth.Assets.Fields.{read_row}
use necroauth.Assets.Tileset.{TileData, TilesetDef, Loading, fresh, load_image, end_tileset, done}
use necroauth.Assets.Tileset.Lookup.{load_all}
use necroauth.Assets.Tileset.File.{
  Stream, getline, contains, value_of, Images, on_line, add_tile_data, insert_data, tile_data,
  load_loop, load_body, load_named,
}
use necroauth.Console.Command.{codes}
use necroauth.Server.Session.{bytes_eq}
use necroauth.Assets.Tileset.Printed.{
  AreListed, AreRows, Block, IsName, Row, begins_comment, blocks, end_line, entry, entry-Lacks,
  getline-line, images_of, inner_end, last_line, load_src-entry, name_key, on_src, outer_end,
  outer_step, printed, rest_of, rounds, src_key, value_of-entry, with_rows, tile, commented,
}

-- The same, with this data about single tiles.
abbrev pub with_data : List (ℤ × TileData) → Loading → Loading
with_data d l = record l { def = record l.def { tiles_data = d } }

-- The next line is read, and the inner loop goes on with it.
abbrev resume : ℕ → Images → List ℕ → Stream → Loading → Option (Result TilesetDef)
resume n images x s l = load_loop n images true (getline s x).0 (getline s x).1 l

inner_row :
    (n : ℕ) (images : Images) (line last : List ℕ) (s s' : Stream) (l l' : Loading)
    → bytes_eq line (codes "END") ≡ false
    → on_line images line s l ≡ ok (l', last, s')
    → load_loop (suc n) images true line s l ≡ resume n images last s' l'
unfolding load_loop
inner_row n images line last s s' l l' e o = rw (e, load_loop) (rw (o, load_loop) refl)

on_tile :
    (images : Images) (line : List ℕ) (s : Stream) (l : Loading)
    → contains (codes "src") line ≡ false
    → begins_comment line ≡ some false
    → on_line images line s l ≡ ok (add_tile_data line l, line, s)
unfolding on_line
on_tile images [] s l c h = cc
on_tile images (b ∷ bs) s l c h = let plain : (b == b'#') ≡ false = cc h in rw (c, plain) refl

on_commented :
    (images : Images) (comment line : List ℕ) (s s' : Stream) (l : Loading)
    → contains (codes "src") comment ≡ false
    → begins_comment comment ≡ some true
    → getline s comment ≡ (line, s')
    → on_line images comment s l ≡ ok (add_tile_data line l, line, s')
unfolding on_line
on_commented images [] line s s' l c h g = cc
on_commented images (b ∷ bs) line s s' l c h g =
    let marked : (b == b'#') ≡ true = cc h in rw (c, marked, g) refl

-- The data that rows add.
abbrev data_of : List Row → List (ℤ × TileData) → List (ℤ × TileData)
data_of [] d = d
data_of (tile line ∷ rs) d = data_of rs (insert_data (tile_data (read_row 11 line 0)) d)
data_of (commented comment line ∷ rs) d =
    data_of rs (insert_data (tile_data (read_row 11 line 0)) d)

-- One round for each row, up to the end of the tile set.
load_loop-rows :
    (n : ℕ) (images : Images) (rs : List Row) (rest x : List ℕ) (d : List (ℤ × TileData))
    (l : Loading)
    → AreRows rs
    → resume
        (length rs + n)
        images
        x
        (rest_of (with_rows rs (codes "END" ++ 10 ∷ rest)))
        (with_data d l)
      ≡ load_loop n images true (codes "END") (rest_of rest) (with_data (data_of rs d) l)
unfolding add_tile_data insert_data
load_loop-rows n images [] rest x d l h =
    ap (λ m. resume m images x (rest_of (codes "END" ++ 10 ∷ rest)) (with_data d l)) (omega arith)
    ∙ ap (λ (g : List ℕ × Stream). load_loop n images true g.0 g.1 (with_data d l))
        (end_line rest x)
load_loop-rows n images (tile line ∷ rs) rest x d l (plain, first, h) =
    let after : List ℕ = with_rows rs (codes "END" ++ 10 ∷ rest) in
    ap (λ m. resume m images x (rest_of (line ++ 10 ∷ after)) (with_data d l)) (omega arith)
    ∙ ap
        (λ (g : List ℕ × Stream).
          load_loop (suc (length rs + n)) images true g.0 g.1 (with_data d l))
        (getline-line line after x plain.0)
    ∙ inner_row (length rs + n) images line line (rest_of after) (rest_of after) (with_data d l)
        (add_tile_data line (with_data d l)) plain.2
        (on_tile images line (rest_of after) (with_data d l) plain.1 first)
    ∙ load_loop-rows n images rs rest line (insert_data (tile_data (read_row 11 line 0)) d) l h
load_loop-rows n images (commented comment line ∷ rs) rest x d l (plain, first, whole, h) =
    let after : List ℕ = with_rows rs (codes "END" ++ 10 ∷ rest) in
    ap (λ m. resume m images x (rest_of (comment ++ 10 ∷ (line ++ 10 ∷ after))) (with_data d l))
      (omega arith)
    ∙ ap
        (λ (g : List ℕ × Stream).
          load_loop (suc (length rs + n)) images true g.0 g.1 (with_data d l))
        (getline-line comment (line ++ 10 ∷ after) x plain.0)
    ∙ inner_row (length rs + n) images comment line (rest_of (line ++ 10 ∷ after)) (rest_of after)
        (with_data d l) (add_tile_data line (with_data d l)) plain.2
        (on_commented images comment line (rest_of (line ++ 10 ∷ after)) (rest_of after)
          (with_data d l) plain.1 first (getline-line line after comment whole))
    ∙ load_loop-rows n images rs rest line (insert_data (tile_data (read_row 11 line 0)) d) l h

abbrev data_of_all : List Block → List (ℤ × TileData) → List (ℤ × TileData)
data_of_all [] d = d
data_of_all (b ∷ bs) d = data_of_all bs (data_of b.rows d)

-- Three rounds for each tile set, one for each of its rows, and one for the end of the list.
load_loop-blocks :
    (k : ℕ) (images : Images) (bs : List Block) (x : List ℕ) (d : List (ℤ × TileData)) (l : Loading)
    → AreListed images bs
    → load_loop (rounds bs + suc k) images false x (rest_of (blocks bs)) (with_data d l)
      ≡ some (ok (done (with_data (data_of_all bs d) (load_all (images_of bs) l))))
unfolding load_all bytes_eq load_image end_tileset
load_loop-blocks k images [] x d l h =
    ap (λ f. load_loop f images false x (rest_of (blocks [])) (with_data d l)) (omega arith)
    ∙ outer_end k images x (codes "ENDTILESETS") (rest_of (blocks [])) (rest_of []) (with_data d l)
        (last_line x) refl
load_loop-blocks k images (b ∷ bs) x d l (named, ends, found, fine, h) =
    let line : List ℕ = entry (codes "src ") b.file in
    let after : List ℕ = with_rows b.rows (codes "END" ++ 10 ∷ blocks bs) in
    let n = rounds bs + suc k in
    let fuel : rounds (b ∷ bs) + suc k ≡ suc (suc (length b.rows + suc n)) = omega arith in
    ap (λ f. load_loop f images false x (rest_of (blocks (b ∷ bs))) (with_data d l)) fuel
    ∙ outer_step (suc (length b.rows + suc n)) images x line (rest_of (line ++ 10 ∷ after))
        (rest_of after) (with_data d l)
        (getline-line line after x (entry-Lacks (codes "src ") b.file src_key named.0)) ends
    ∙ inner_row (length b.rows + suc n) images line line (rest_of after) (rest_of after)
        (with_data d l) (load_image b.image (with_data d l)) refl
        (on_src images line (rest_of after) (with_data d l) (load_image b.image (with_data d l))
          refl (load_src-entry images b.file b.image (with_data d l) named.1 found))
    ∙ load_loop-rows (suc n) images b.rows (blocks bs) line d (load_image b.image l) fine
    ∙ inner_end n images (codes "END") (rest_of (blocks bs))
        (with_data (data_of b.rows d) (load_image b.image l)) refl
    ∙ load_loop-blocks k images bs (codes "END") (data_of b.rows d)
        (end_tileset (load_image b.image l)) h

pub images_of-append : (xs ys : List Block) → images_of (xs ++ ys) ≡ images_of xs ++ images_of ys
images_of-append [] ys = refl
images_of-append (b ∷ xs) ys = ap (◌∷◌ b.image) (images_of-append xs ys)

-- What is loaded of a file: its images, and some data about single tiles.
pub load_body-printed :
    (fuel : ℕ) (images : Images) (name : List ℕ) (bs : List Block)
    → IsName name
    → AreListed images bs
    → rounds bs < fuel
    → (d : List (ℤ × TileData)) × (load_body fuel images (printed name bs)
        ≡ some (ok (done (with_data d (load_all (images_of bs) (fresh name))))))
unfolding load_body load_named
load_body-printed fuel images name bs named listed enough = (
  data_of_all bs [],
  let line : List ℕ = entry (codes "name ") name in
      let same : fuel ≡ rounds bs + suc (fuel - rounds bs - 1) = omega arith in
      ap (λ (first : List ℕ × Stream). load_named fuel images first (value_of first.0))
        (getline-line line (blocks bs) [] (entry-Lacks (codes "name ") name name_key named.0))
      ∙ ap (load_named fuel images (line, rest_of (blocks bs)))
          (value_of-entry (codes "name ") name (refl, (refl, (refl, (refl, (refl, tt))))) named.1)
      ∙ ap (λ f. load_loop f images false line (rest_of (blocks bs)) (fresh name)) same
      ∙ load_loop-blocks (fuel - rounds bs - 1) images bs line [] (fresh name) listed,
)
