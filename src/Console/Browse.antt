-- ===== src/Console/Browse.antt =====
-- The arrow keys: which command of the history they recall.
use necroauth.Prelude.{
  ℕ, zero, suc, ◌+◌, ◌-◌, true, false, if◌then◌else◌, ◌%◌, ◌^◌, ◌≤◌, ◌<◌, ◌≡◌, Bool-cases, le→leb,
  lt→ltb, le→ltb, inl, inr, List, [], ◌∷◌, ◌++◌, length, length-append, get_elem?, Option, none,
  some, ok, ◌>>=◌, ℤ, pos, negsuc, refl, ap, ap₂, ◌∙◌, arith,
}
use necroauth.Console.{
  Console, Keys, browse, browsed, recalled, show, clamp_index, step_up, step_down,
}

get_elem-inside :
    {A : Type 0} (xs : List A) (i : ℕ) → i < length xs → (x : A) × (get_elem? xs i ≡ some x)
get_elem-inside [] i h = absurd (omega arith)
get_elem-inside (x ∷ xs) zero h = (x, refl)
get_elem-inside (x ∷ xs) (suc i) h = get_elem-inside xs i (omega arith)

get_elem-middle :
    {A : Type 0} (xs ys : List A) (x : A) → get_elem? (xs ++ x ∷ ys) (length xs) ≡ some x
get_elem-middle [] ys x = refl
get_elem-middle (z ∷ xs) ys x = get_elem-middle xs ys x

-- A history of fewer than 2^31 commands.
recalled-cons :
    (x : List ℕ) (xs : List (List ℕ)) (j : ℕ) {s : List ℕ}
    → length (x ∷ xs) < 2 ^ 31
    → get_elem? (x ∷ xs) (length xs - j) ≡ some s
    → recalled (x ∷ xs) j ≡ ok (some s)
recalled-cons x xs j {s} h e =
    let n = length xs - j in
    let small : n % 2 ^ 32 ≡ n = omega arith in
    rw (small, lt→ltb n (2 ^ 31) (omega arith), le→leb n (length xs) (omega arith), e) refl

recalled-nil : (j : ℕ) → j < 2 ^ 31 → recalled [] j ≡ ok none
recalled-nil j h = rw (le→ltb ((2 ^ 64 - 1 - j) % 2 ^ 32) (2 ^ 31) (omega arith)) refl

-- The index of the history is an `int` that can be moved by one.
unfoldable pub Fits : ℤ → Type 0
Fits (pos i) = suc i < 2 ^ 31
Fits (negsuc i) = Unit {0}

recalled-returns :
    (h : List (List ℕ)) (j : ℕ)
    → length h < 2 ^ 31
    → j < 2 ^ 31
    → (o : Option (List ℕ)) × (recalled h j ≡ ok o)
recalled-returns [] j n m = (none, recalled-nil j m)
recalled-returns (x ∷ xs) j n m =
    let (s, e) = get_elem-inside (x ∷ xs) (length xs - j) (omega arith) in
    (some s, recalled-cons x xs j n e)

clamp-small : (size : ℕ) (i : ℤ) → clamp_index size i ≤ (elim i [ pos n ↦ n | negsuc n ↦ 0 ])
clamp-small size (negsuc n) = omega arith
clamp-small size (pos n) = ground arith

browse-returns :
    (i : ℤ) (c : Console)
    → length c.history < 2 ^ 31
    → clamp_index (length c.history) i < 2 ^ 31
    → (d : Console) × (browse i c ≡ ok d)
unfolding browse
browse-returns i c n m =
    let (o, e) = recalled-returns c.history (clamp_index (length c.history) i) n m in
    (show o (record c { cur_history_index = pos (clamp_index (length c.history) i) }), rw e refl)

step_up-small : (size : ℕ) (i : ℤ) → Fits i → clamp_index size (step_up i) < 2 ^ 31
unfolding Fits
step_up-small size (pos i) h = omega (arith, clamp-small size (pos (suc i)))
step_up-small size (negsuc zero) h = omega (arith, clamp-small size (pos 0))
step_up-small size (negsuc (suc i)) h = omega arith

step_down-small : (size : ℕ) (i : ℤ) → Fits i → clamp_index size (step_down i) < 2 ^ 31
unfolding Fits
step_down-small size (pos zero) h = omega arith
step_down-small size (pos (suc i)) h = omega (arith, clamp-small size (pos i))
step_down-small size (negsuc i) h = omega arith

-- With fewer than 2^31 commands and an index below 2^31 - 1, a turn of the arrow
-- keys, none of them or either, reads no command outside of the history.
pub browsed-returns :
    (k : Keys) (c : Console)
    → length c.history < 2 ^ 31
    → Fits c.cur_history_index
    → (d : Console) × (browsed k c ≡ ok d)
browsed-returns k c n f = elim (Bool-cases k.up) [
  | inl up ↦
      let (d, e) =
        browse-returns (step_up c.cur_history_index) c n
          (step_up-small (length c.history) c.cur_history_index f) in
      (d, rw up e)
  | inr other ↦ elim (Bool-cases k.down) [
    | inl down ↦
        let (d, e) =
          browse-returns (step_down c.cur_history_index) c n
            (step_down-small (length c.history) c.cur_history_index f) in
        (d, rw (other, down) e)
    | inr idle ↦ (c, rw (other, idle) refl)
  ]
]

recalled-middle :
    (older newer : List (List ℕ)) (s : List ℕ)
    → length (older ++ s ∷ newer) < 2 ^ 31
    → recalled (older ++ s ∷ newer) (length newer) ≡ ok (some s)
recalled-middle [] newer s h =
    let none_newer : length newer - length newer ≡ 0 = omega arith in
    recalled-cons s newer (length newer) h (ap (λ i. get_elem? (s ∷ newer) i) none_newer)
recalled-middle (z ∷ zs) newer s h =
    let same : length (zs ++ s ∷ newer) - length newer ≡ suc (length zs) =
      omega (arith, length-append zs (s ∷ newer)) in
    recalled-cons z (zs ++ s ∷ newer) (length newer) h
      (ap (λ i. get_elem? (z ∷ zs ++ s ∷ newer) i) same ∙ get_elem-middle zs newer s)

-- Browsing to an index which, clamped to the history, is the number of commands that are newer than
-- one of them.
browse-recalls :
    (older newer : List (List ℕ)) (s : List ℕ) (i : ℤ) (c : Console)
    → c.history ≡ older ++ s ∷ newer
    → length c.history < 2 ^ 31
    → clamp_index (length c.history) i ≡ length newer
    → browse i c ≡ ok (record c { cur_history_index = pos (length newer); str = s })
unfolding browse
browse-recalls older newer s i c e n k =
    ap₂ (λ r j. r >>= λ o. ok (show o (record c { cur_history_index = pos j })))
      (ap₂ recalled e k ∙ recalled-middle older newer s (omega (arith, n, ap {B = ℕ} length e))) k

-- A turn of the arrow keys at an index: what it has to show is the command with so many older and so
-- many newer ones. The upper key goes before the lower one; -1 is the index of a console just opened.
pub data Lands (k : Keys) : ℤ → ℕ → ℕ → Type 0 where
  first : (older : ℕ) → k.up ≡ true → Lands k (negsuc 0) older 0
  older_one : (older i : ℕ) → k.up ≡ true → Lands k (pos i) older (suc i)
  oldest : (newer : ℕ) → k.up ≡ true → Lands k (pos newer) 0 newer
  newer_one :
      (older newer : ℕ) → k.up ≡ false → k.down ≡ true → Lands k (pos (suc newer)) older newer
  newest : (older : ℕ) → k.up ≡ false → k.down ≡ true → Lands k (pos 0) older 0
  last : (older : ℕ) → k.up ≡ false → k.down ≡ true → Lands k (negsuc 0) older 0

-- Where a turn of the keys goes.
abbrev target : Keys → ℤ → ℤ
target k i = if k.up then step_up i else step_down i

Lands-clamp :
    {k : Keys} {i : ℤ} {older newer : ℕ} (size : ℕ)
    → Lands k i older newer
    → older + suc newer ≡ size
    → size < 2 ^ 31
    → clamp_index size (target k i) ≡ newer
Lands-clamp zero l e h = absurd (omega arith)
Lands-clamp (suc n) (first older up) e h = ground arith
Lands-clamp (suc n) (older_one older i up) e h = ground arith
Lands-clamp (suc n) (oldest newer up) e h = ground arith
Lands-clamp (suc n) (newer_one older newer other down) e h = ground arith
Lands-clamp (suc n) (newest older other down) e h = ground arith
Lands-clamp (suc n) (last older other down) e h = ground arith

Lands-browsed :
    {k : Keys} {i : ℤ} {older newer : ℕ} (c : Console)
    → Lands k i older newer
    → c.cur_history_index ≡ i
    → browsed k c ≡ browse (target k i) c
Lands-browsed c (first older up) e = rw (up, e) refl
Lands-browsed c (older_one older i up) e = rw (up, e) refl
Lands-browsed c (oldest newer up) e = rw (up, e) refl
Lands-browsed c (newer_one older newer other down) e = rw (other, down, e) refl
Lands-browsed c (newest older other down) e = rw (other, down, e) refl
Lands-browsed c (last older other down) e = rw (other, down, e) refl

-- In a history of fewer than 2^31 commands the upper arrow key shows the command before the one at
-- the index, or again the oldest; the lower one shows the command after it, or again the newest; from
-- the index -1 of a console just opened both show the newest. The new index is that of the command
-- shown.
pub arrows_recall :
    (k : Keys) (older newer : List (List ℕ)) (s : List ℕ) (c : Console)
    → c.history ≡ older ++ s ∷ newer
    → length c.history < 2 ^ 31
    → Lands k c.cur_history_index (length older) (length newer)
    → browsed k c ≡ ok (record c { cur_history_index = pos (length newer); str = s })
arrows_recall k older newer s c e n l =
    Lands-browsed c l refl
    ∙ browse-recalls older newer s (target k c.cur_history_index) c e n (
        Lands-clamp (length c.history) l
          (omega (arith, ap {B = ℕ} length e, length-append older (s ∷ newer))) n)
