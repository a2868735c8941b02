-- ===== src/Prelude/Slices.antt =====
-- Raw memory: reading and overwriting a stretch of a byte vector, and `std::vector::resize`.
use Prim.Native.Nat.{ℕ, ◌+◌, ◌-◌, ◌≤◌}
use mathlib.Core.Path.{◌≡◌, ap, ap₂, ◌∙◌}
use mathlib.Core.List.{List, ◌++◌, append-nil}
use native.Mathlib.Omega.{arith}
use necroauth.Prelude.Lists.{
  length, take, drop, replicate, length-append, length-take, length-drop, length-replicate,
  take_append_le, drop_append_le, take-append_length, drop-append_length, drop-drop, take-add,
  drop-take, take-take, take_all, drop_all,
}

-- The `n` bytes from position `pos` on.
abbrev pub slice : List ℕ → ℕ → ℕ → List ℕ
slice buf pos n = take n (drop pos buf)

-- `memcpy` and `memmove` to position `pos`.
unfoldable pub write_at : List ℕ → ℕ → List ℕ → List ℕ
write_at buf pos xs = take pos buf ++ (xs ++ drop (pos + length xs) buf)

-- New bytes are value-initialised, to 0.
unfoldable pub resize : ℕ → List ℕ → List ℕ
resize n buf = take n buf ++ replicate (n - length buf) 0

pub length-slice : (buf : List ℕ) (pos n : ℕ) → pos + n ≤ length buf → length (slice buf pos n) ≡ n
length-slice buf pos n h = omega (arith, length-take n (drop pos buf), length-drop pos buf)

pub length-write_at :
    (buf : List ℕ) (pos : ℕ) (xs : List ℕ)
    → pos + length xs ≤ length buf
    → length (write_at buf pos xs) ≡ length buf
unfolding write_at
length-write_at buf pos xs h = omega (
  arith,
  length-append (take pos buf) (xs ++ drop (pos + length xs) buf),
  length-append xs (drop (pos + length xs) buf),
  length-take pos buf,
  length-drop (pos + length xs) buf,
)

pub length-resize : (n : ℕ) (buf : List ℕ) → length (resize n buf) ≡ n
unfolding resize
length-resize n buf = omega (
  arith,
  length-append (take n buf) (replicate (n - length buf) 0),
  length-take n buf,
  length-replicate {A = ℕ} (n - length buf) 0,
)

pub slice-append :
    (xs ys : List ℕ) (p n : ℕ) → p + n ≤ length xs → slice (xs ++ ys) p n ≡ slice xs p n
slice-append xs ys p n h =
    rw (drop_append_le p xs ys (omega arith))
      (take_append_le n (drop p xs) ys (omega (arith, length-drop p xs)))

pub slice-take : (buf : List ℕ) (p n m : ℕ) → p + n ≤ m → slice (take m buf) p n ≡ slice buf p n
slice-take buf p n m h =
    ap (λ k. slice (take k buf) p n) split
    ∙ ap (take n) (drop-take p (m - p) buf)
    ∙ take-take n (m - p) (drop p buf) (omega arith)
  where
    split : m ≡ p + (m - p)
    split = omega arith

-- What stands before the write stays.
pub slice-write_at_before :
    (buf : List ℕ) (pos : ℕ) (xs : List ℕ) (p n : ℕ)
    → p + n ≤ pos
    → pos ≤ length buf
    → slice (write_at buf pos xs) p n ≡ slice buf p n
unfolding write_at
slice-write_at_before buf pos xs p n h k =
    slice-append (take pos buf) (xs ++ drop (pos + length xs) buf) p n
      (omega (arith, length-take pos buf))
    ∙ slice-take buf p n pos h

-- What is written can be read.
pub slice-write_at :
    (buf : List ℕ) (pos : ℕ) (xs : List ℕ)
    → pos ≤ length buf
    → slice (write_at buf pos xs) pos (length xs) ≡ xs
unfolding write_at
slice-write_at buf pos xs h =
    ap (λ k. take (length xs) (drop k (take pos buf ++ (xs ++ drop (pos + length xs) buf)))) len
    ∙ ap (take (length xs)) (drop-append_length (take pos buf) (xs ++ drop (pos + length xs) buf))
    ∙ take-append_length xs (drop (pos + length xs) buf)
  where
    len : pos ≡ length (take pos buf)
    len = omega (arith, length-take pos buf)

pub slice-add :
    (buf : List ℕ) (p a b : ℕ) → slice buf p (a + b) ≡ slice buf p a ++ slice buf (p + a) b
slice-add buf p a b =
    take-add a b (drop p buf) ∙ ap (λ l. take a (drop p buf) ++ take b l) (drop-drop a p buf)

pub slice-resize :
    (buf : List ℕ) (m p n : ℕ)
    → p + n ≤ length buf
    → length buf ≤ m
    → slice (resize m buf) p n ≡ slice buf p n
unfolding resize
slice-resize buf m p n h k =
    slice-append (take m buf) (replicate (m - length buf) 0) p n (omega (arith, length-take m buf))
    ∙ slice-take buf p n m (omega arith)

pub drop-slice : (buf : List ℕ) (p k n : ℕ) → drop k (slice buf p (k + n)) ≡ slice buf (p + k) n
drop-slice buf p k n = drop-take k n (drop p buf) ∙ ap (take n) (drop-drop k p buf)

-- A slice of a slice.
pub slice-slice :
    (buf : List ℕ) (p n q m : ℕ) → q + m ≤ n → slice (slice buf p n) q m ≡ slice buf (p + q) m
slice-slice buf p n q m h = slice-take (drop p buf) q m n h ∙ ap (take m) (drop-drop q p buf)

pub take-slice : (buf : List ℕ) (p k n : ℕ) → k ≤ n → take k (slice buf p n) ≡ slice buf p k
take-slice buf p k n h = take-take k n (drop p buf) h

-- Writing at the end of a vector that was made longer for it appends.
pub write_at-resize_end :
    (bs xs : List ℕ) (n : ℕ)
    → n ≡ length bs + length xs
    → write_at (resize n bs) (length bs) xs ≡ bs ++ xs
unfolding write_at resize
write_at-resize_end bs xs n e =
    ap₂ (λ a b. a ++ (xs ++ b)) front
      (drop_all (length bs + length xs) (take n bs ++ pad) (
        omega (
          arith,
          length-append (take n bs) pad,
          length-take n bs,
          length-replicate {A = ℕ} (n - length bs) 0,
        )))
    ∙ ap (◌++◌ bs) (append-nil xs)
  where
    pad : List ℕ
    pad = replicate (n - length bs) 0

    whole : take n bs ≡ bs
    whole = take_all n bs (omega arith)

    front : take (length bs) (take n bs ++ pad) ≡ bs
    front = rw whole (take-append_length bs pad)
