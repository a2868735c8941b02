-- ===== src/Assets/Fields.antt =====
-- The rows of numbers in the files of Mapfile.cpp and TilesetDef.cpp: how a line is cut at its
-- commas. The position that `find` gives is an `int` there, and -1 where there is none.
use necroauth.Prelude.{
  ℕ, zero, suc, ◌+◌, ◌-◌, ◌≡◌, refl, sym, ap, ap₂, ◌∙◌, false, if◌then◌else◌, ◌==◌, List, [], ◌∷◌,
  ◌++◌, length, take, drop, slice, append_assoc, drop-append_length, take-append_length,
  length-append, append-nil, Option, none, some, arith,
}
use mathlib.Core.Option
use native.Mathlib.Nat.{zero-add}

-- `find(c)`, from the front of the bytes.
unfoldable pub find : ℕ → List ℕ → Option ℕ
find c [] = none
find c (b ∷ bs) = let rest = find c bs in if b == c then some 0 else Option.map suc rest

-- `line.find(c, p)`
abbrev pub find_from : ℕ → List ℕ → ℕ → Option ℕ
find_from c line p = Option.map (λ i. p + i) (find c (drop p line))

-- `endPos = line.find(',', startPos + 1); line.substr(startPos, endPos - startPos)`, and the next
-- `startPos`, `endPos + 1`. Without a comma the length is negative, so the rest is taken.
cut : List ℕ → ℕ → Option ℕ → List ℕ × ℕ
cut line p none = (drop p line, 0)
cut line p (some q) = (slice line p (q - p), q + 1)

unfoldable pub next_field : List ℕ → ℕ → List ℕ × ℕ
unfolding find cut
next_field line p = cut line p (find_from b',' line (p + 1))

-- The loop over the columns, from a position.
unfoldable pub read_row : ℕ → List ℕ → ℕ → List (List ℕ)
read_row zero line p = []
read_row (suc n) line p = let (field, q) = next_field line p in field ∷ read_row n line q

-- A field as the files write it: some bytes with no comma among them, but perhaps the first.
abbrev pub Lacks : ℕ → List ℕ → Type 0
Lacks c [] = Unit {0}
Lacks c (b ∷ bs) = ((b == c) ≡ false) × Lacks c bs

abbrev pub IsField : List ℕ → Type 0
IsField [] = ⊥
IsField (b ∷ bs) = Lacks b',' bs

abbrev pub AreFields : List (List ℕ) → Type 0
AreFields [] = Unit {0}
AreFields (f ∷ fs) = IsField f × AreFields fs

-- Each field, with a comma behind it.
abbrev pub with_commas : List (List ℕ) → List ℕ
with_commas [] = []
with_commas (f ∷ fs) = f ++ b',' ∷ with_commas fs

find-Lacks : (c : ℕ) (bs : List ℕ) → Lacks c bs → find c bs ≡ none
unfolding find
find-Lacks c [] h = refl
find-Lacks c (b ∷ bs) h = ground (arith, find-Lacks c bs h.1)

pub find-here : (c : ℕ) (bs rest : List ℕ) → Lacks c bs → find c (bs ++ c ∷ rest) ≡ some (length bs)
unfolding find
find-here c [] rest h = ground arith
find-here c (b ∷ bs) rest h = ground (arith, find-here c bs rest h.1)

drop_suc : (pre : List ℕ) (b : ℕ) (bs : List ℕ) → drop (length pre + 1) (pre ++ b ∷ bs) ≡ bs
drop_suc [] b bs = refl
drop_suc (x ∷ pre) b bs =
    let e : suc (length pre) + 1 ≡ suc (length pre + 1) = omega arith in rw e (drop_suc pre b bs)

-- A field with a comma behind it is cut out whole.
next_field-comma :
    (pre f rest : List ℕ)
    → IsField f
    → next_field (pre ++ (f ++ b',' ∷ rest)) (length pre) ≡ (f, length pre + length f + 1)
unfolding next_field cut
next_field-comma pre [] rest h = absurd h
next_field-comma pre (b ∷ bs) rest h =
    let line : List ℕ = pre ++ (b ∷ (bs ++ b',' ∷ rest)) in
    let width : length pre + 1 + length bs - length pre ≡ suc (length bs) = omega arith in
    ap (λ o. cut line (length pre) (Option.map (λ i. length pre + 1 + i) o))
      (ap (find b',') (drop_suc pre b (bs ++ b',' ∷ rest)) ∙ find-here b',' bs rest h)
    ∙ ap₂ (λ (f : List ℕ) (q : ℕ). (f, q))
        (ap (λ n. take n (drop (length pre) line)) width
          ∙ ap (take (suc (length bs))) (drop-append_length pre (b ∷ (bs ++ b',' ∷ rest)))
          ∙ take-append_length (b ∷ bs) (b',' ∷ rest))
        (omega arith)

-- The last field reaches to the end of the line, and the next one is at its start.
next_field-last : (pre f : List ℕ) → IsField f → next_field (pre ++ f) (length pre) ≡ (f, 0)
unfolding next_field cut
next_field-last pre [] h = absurd h
next_field-last pre (b ∷ bs) h =
    ap (λ o. cut (pre ++ b ∷ bs) (length pre) (Option.map (λ i. length pre + 1 + i) o))
      (ap (find b',') (drop_suc pre b bs) ∙ find-Lacks b',' bs h)
    ∙ ap (λ (f : List ℕ). (f, 0)) (drop-append_length pre (b ∷ bs))

-- The position behind the fields.
abbrev behind : ℕ → List (List ℕ) → ℕ
behind p [] = p
behind p (f ∷ fs) = behind (p + length f + 1) fs

behind-length : (p : ℕ) (fs : List (List ℕ)) → behind p fs ≡ p + length (with_commas fs)
behind-length p [] = omega arith
behind-length p (f ∷ fs) =
    omega (arith, behind-length (p + length f + 1) fs, length-append f (b',' ∷ with_commas fs))

regroup :
    (pre f : List ℕ) (fs : List (List ℕ)) (rest : List ℕ)
    → pre ++ (with_commas (f ∷ fs) ++ rest) ≡ (pre ++ (f ++ b',' ∷ [])) ++ (with_commas fs ++ rest)
regroup pre f fs rest = simp append_assoc

length_through : (pre f : List ℕ) → length (pre ++ (f ++ b',' ∷ [])) ≡ length pre + length f + 1
length_through pre f =
    omega (arith, length-append pre (f ++ b',' ∷ []), length-append f (b',' ∷ []))

read_row_step :
    (n : ℕ) (line : List ℕ) (p : ℕ) {f : List ℕ} {q : ℕ}
    → next_field line p ≡ (f, q)
    → read_row (suc n) line p ≡ f ∷ read_row n line q
unfolding read_row
read_row_step n line p e = ap (λ (c : List ℕ × ℕ). c.0 ∷ read_row n line c.1) e

read_row_from :
    (n : ℕ) (line : List ℕ) (fs : List (List ℕ)) (pre rest : List ℕ)
    → AreFields fs
    → line ≡ pre ++ (with_commas fs ++ rest)
    → read_row (length fs + n) line (length pre) ≡ fs ++ read_row n line (behind (length pre) fs)
read_row_from n line [] pre rest h e = ap (λ m. read_row m line (length pre)) (omega arith)
read_row_from n line (f ∷ fs) pre rest h e =
    ap (λ m. read_row m line (length pre)) more
    ∙ read_row_step (length fs + n) line (length pre) first
    ∙ ap (◌∷◌ f) (
        ap (read_row (length fs + n) line) (sym (length_through pre f))
        ∙ read_row_from n line fs (pre ++ (f ++ b',' ∷ [])) rest h.1 (e ∙ regroup pre f fs rest)
        ∙ ap (λ p. fs ++ read_row n line (behind p fs)) (length_through pre f))
  where
    more : suc (length fs) + n ≡ suc (length fs + n)
    more = omega arith

    first : next_field line (length pre) ≡ (f, length pre + length f + 1)
    first =
        ap (λ l. next_field l (length pre))
          (e ∙ ap (◌++◌ pre) (append_assoc f (b',' ∷ with_commas fs) rest))
        ∙ next_field-comma pre f (with_commas fs ++ rest) h.0

-- Reading more columns than a line has: the fields with a comma behind them are read in order, each
-- as it stands; then the rest of the line, if it is a field; and then the line from its start again.
pub read_row-with_commas :
    (n : ℕ) (fs : List (List ℕ)) (rest : List ℕ)
    → AreFields fs
    → IsField rest
    → (read_row (length fs) (with_commas fs ++ rest) 0 ≡ fs)
      × (read_row (length fs + suc n) (with_commas fs ++ rest) 0
          ≡ fs ++ rest ∷ read_row n (with_commas fs ++ rest) 0)
unfolding read_row
read_row-with_commas n fs rest h k =
    let line : List ℕ = with_commas fs ++ rest in
    let last : next_field line (behind 0 fs) ≡ (rest, 0) =
      ap (next_field line) (behind-length 0 fs ∙ zero-add (length (with_commas fs)))
      ∙ next_field-last (with_commas fs) rest k in
    (
      ap (λ m. read_row m line 0) (omega arith)
          ∙ read_row_from 0 line fs [] rest h refl
          ∙ append-nil fs,
      read_row_from (suc n) line fs [] rest h refl
          ∙ ap (◌++◌ fs) (read_row_step n line (behind 0 fs) last),
    )
