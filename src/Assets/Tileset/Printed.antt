-- ===== src/Assets/Tileset/Printed.antt =====
-- `TilesetDef::LoadFromFile` on files that list images, and rows about their tiles.
pub mod Rounds
use necroauth.Prelude.{
  ℕ, suc, ◌+◌, ◌-◌, Result, ◌<◌, ◌≡◌, refl, sym, ap, ◌∙◌, true, false, leb, le→leb, List, [], ◌∷◌,
  ◌++◌, length, drop, drop-drop, drop-append_length, take-append_length, length-append, some, none,
  ok, Option, Bool, ◌==◌, ℤ, arith,
}
use necroauth.Assets.Fields.{Lacks, read_row, find, find-here}
use necroauth.Assets.Tileset.{
  Image, TileData, TilesetDef, Loading, fresh, load_image, end_tileset, done,
}
use necroauth.Assets.Tileset.Lookup.{load_all}
use necroauth.Assets.Tileset.File.{
  Stream, cut_line, getline, contains, value_of, value_at, value_start, up_to, Images, load_src,
  on_line, add_tile_data, insert_data, tile_data, load_loop, load_body, load_named,
}
use necroauth.Console.Command.{codes}
use necroauth.Server.Session.{bytes_eq}

-- `key = value;`
abbrev pub entry : List ℕ → List ℕ → List ℕ
entry key value = key ++ b'=' ∷ b' ' ∷ (value ++ b';' ∷ [])

-- What can stand about the tiles of an image: the line of a tile, or a comment and the line after it.
pub data Row : Type 0 where
  tile : List ℕ → Row
  commented : List ℕ → List ℕ → Row

-- A tile set as a file lists it: the name of its image, which is this one, and the rows about its tiles.
pub record Block : Type 0 where
  pub file : List ℕ
  pub image : Image
  pub rows : List Row

-- The rows, in front of the rest of the file.
abbrev pub with_rows : List Row → List ℕ → List ℕ
with_rows [] rest = rest
with_rows (tile line ∷ rs) rest = line ++ 10 ∷ with_rows rs rest
with_rows (commented comment line ∷ rs) rest = comment ++ 10 ∷ (line ++ 10 ∷ with_rows rs rest)

-- The lines of the tile sets, each with its `END`, and the end of the list.
abbrev pub blocks : List Block → List ℕ
blocks [] = codes "ENDTILESETS" ++ 10 ∷ []
blocks (b ∷ bs) =
    entry (codes "src ") b.file ++ 10 ∷ with_rows b.rows (codes "END" ++ 10 ∷ blocks bs)

abbrev pub printed : List ℕ → List Block → List ℕ
printed name bs = entry (codes "name ") name ++ 10 ∷ blocks bs

abbrev pub IsName : List ℕ → Type 0
IsName name = Lacks 10 name × Lacks b';' name

-- A line that is not taken for the name of an image or for the end of a tile set.
abbrev IsPlain : List ℕ → Type 0
IsPlain line =
    Lacks 10 line × (contains (codes "src") line ≡ false) × (bytes_eq line (codes "END") ≡ false)

-- Whether a line begins with a number sign; `at` throws on an empty one.
abbrev pub begins_comment : List ℕ → Option Bool
begins_comment [] = none
begins_comment (b ∷ bs) = some (b == b'#')

abbrev pub AreRows : List Row → Type 0
AreRows [] = Unit {0}
AreRows (tile line ∷ rs) = IsPlain line × (begins_comment line ≡ some false) × AreRows rs
AreRows (commented comment line ∷ rs) =
    IsPlain comment × (begins_comment comment ≡ some true) × Lacks 10 line × AreRows rs

-- The assets manager has these images under their names, which the files can hold.
abbrev pub AreListed : Images → List Block → Type 0
AreListed images [] = Unit {0}
AreListed images (b ∷ bs) =
    IsName b.file
    × (contains (codes "ENDTILESETS") (entry (codes "src ") b.file) ≡ false)
    × (images b.file ≡ some b.image)
    × AreRows b.rows
    × AreListed images bs

abbrev pub images_of : List Block → List Image
images_of [] = []
images_of (b ∷ bs) = b.image ∷ images_of bs

-- Rounds of the loops: three for each tile set, and one for each of its rows.
abbrev pub rounds : List Block → ℕ
rounds [] = 0
rounds (b ∷ bs) = 3 + length b.rows + rounds bs

cut_line-append :
    (line rest : List ℕ) → Lacks 10 line → cut_line (line ++ 10 ∷ rest) ≡ (line, rest, true)
unfolding cut_line
cut_line-append [] rest h = refl
cut_line-append (b ∷ bs) rest h = rw (h.0, cut_line-append bs rest h.1) refl

Lacks-append : (c : ℕ) (xs ys : List ℕ) → Lacks c xs → Lacks c ys → Lacks c (xs ++ ys)
Lacks-append c [] ys h k = k
Lacks-append c (x ∷ xs) ys h k = (h.0, Lacks-append c xs ys h.1 k)

pub getline-line :
    (line rest x : List ℕ)
    → Lacks 10 line
    → getline (record { left = line ++ 10 ∷ rest; good = true }) x
      ≡ (line, record { left = rest; good = true })
unfolding getline
getline-line line rest x h = rw (cut_line-append line rest h) refl

pub entry-Lacks : (key name : List ℕ) → Lacks 10 key → Lacks 10 name → Lacks 10 (entry key name)
entry-Lacks key name h k =
    Lacks-append 10 key (b'=' ∷ b' ' ∷ (name ++ b';' ∷ [])) h
      (refl, (refl, Lacks-append 10 name (b';' ∷ []) k (refl, tt)))

pub value_of-entry :
    (key name : List ℕ) → Lacks b'=' key → Lacks b';' name → value_of (entry key name) ≡ ok name
unfolding value_of value_at value_start up_to
value_of-entry key name h k =
    let line : List ℕ = entry key name in
    let room : leb (length key + 2) (length line) ≡ true =
      le→leb _ _ (omega (arith, length-append key (b'=' ∷ b' ' ∷ (name ++ b';' ∷ [])))) in
    let behind : drop (length key + 2) line ≡ name ++ b';' ∷ [] =
      sym (drop-drop 2 (length key) line)
      ∙ ap (drop 2) (drop-append_length key (b'=' ∷ b' ' ∷ (name ++ b';' ∷ []))) in
    ap (λ o. value_at line (value_start o)) (find-here b'=' key (b' ' ∷ (name ++ b';' ∷ [])) h)
    ∙ rw room (
        ap (λ l. ok (up_to l (find b';' l))) behind
        ∙ ap (λ o. ok (up_to (name ++ b';' ∷ []) o)) (find-here b';' name [] k)
        ∙ ap ok (take-append_length name (b';' ∷ [])))

pub outer_step :
    (n : ℕ) (images : Images) (x line : List ℕ) (s s' : Stream) (l : Loading)
    → getline s x ≡ (line, s')
    → contains (codes "ENDTILESETS") line ≡ false
    → load_loop (suc n) images false x s l ≡ load_loop n images true line s' l
unfolding load_loop
outer_step n images x line s s' l e c = rw (e, c) refl

pub outer_end :
    (n : ℕ) (images : Images) (x line : List ℕ) (s s' : Stream) (l : Loading)
    → getline s x ≡ (line, s')
    → contains (codes "ENDTILESETS") line ≡ true
    → load_loop (suc n) images false x s l ≡ some (ok (done l))
unfolding load_loop
outer_end n images x line s s' l e c = rw (e, c) refl

pub inner_end :
    (n : ℕ) (images : Images) (line : List ℕ) (s : Stream) (l : Loading)
    → bytes_eq line (codes "END") ≡ true
    → load_loop (suc n) images true line s l ≡ load_loop n images false line s (end_tileset l)
unfolding load_loop
inner_end n images line s l e = rw (e, load_loop) refl

pub on_src :
    (images : Images) (line : List ℕ) (s : Stream) (l l' : Loading)
    → contains (codes "src") line ≡ true
    → load_src images line l ≡ ok l'
    → on_line images line s l ≡ ok (l', line, s)
unfolding on_line
on_src images line s l l' c k = rw (c, k) refl

pub load_src-entry :
    (images : Images) (name : List ℕ) (i : Image) (l : Loading)
    → Lacks b';' name
    → images name ≡ some i
    → load_src images (entry (codes "src ") name) l ≡ ok (load_image i l)
unfolding load_src
load_src-entry images name i l k e =
    rw (value_of-entry (codes "src ") name (refl, (refl, (refl, (refl, tt)))) k) (rw e refl)

abbrev pub rest_of : List ℕ → Stream
rest_of bs = record { left = bs; good = true }

pub last_line : (x : List ℕ) → getline (rest_of (blocks [])) x ≡ (codes "ENDTILESETS", rest_of [])
unfolding getline cut_line
last_line x = refl

pub end_line :
    (rest x : List ℕ) → getline (rest_of (codes "END" ++ 10 ∷ rest)) x ≡ (codes "END", rest_of rest)
unfolding getline cut_line
end_line rest x = refl

pub src_key : Lacks 10 (codes "src ")
src_key = (refl, (refl, (refl, (refl, tt))))

pub name_key : Lacks 10 (codes "name ")
name_key = (refl, (refl, (refl, (refl, (refl, tt)))))
