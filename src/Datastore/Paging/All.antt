-- ===== src/Datastore/Paging/All.antt =====
-- All pages of a result.
use Prim.Native.Nat.{◌%◌}
use native.Mathlib.Omega.{div_any}
use native.Mathlib.Nat.{mod-lt, mul_comm, add-mul, suc-mul}
use tork.Prelude.{
  ℕ, zero, suc, ◌+◌, ◌-◌, ◌*◌, ◌/◌, ◌<◌, ◌≤◌, List, [], ◌∷◌, ◌++◌, length, ◌≡◌, refl, sym, ap, ap₂,
  ◌==◌, if◌then◌else◌, ◌∙◌, arith,
}
use tork.Datastore.Paging.{take, drop, pages_for, page_of}

-- The items of the first `n` pages, one page after the other.
unfoldable pub first_pages : {A : Type 0} → ℕ → ℕ → ℕ → List A → List A
first_pages count size zero rows = []
first_pages count size (suc n) rows =
    first_pages count size n rows ++ (page_of count (suc n) size rows).items

module _ {A : Type 0} where
  -- As many of the rows, however the number is written.
  take_same : (m n : ℕ) (l : List A) → m ≡ n → take m l ≡ take n l
  take_same m n l eq = ap (λ k. take k l) eq

  take-empty : (n : ℕ) → take {A = A} n [] ≡ []
  unfolding take
  take-empty zero = refl
  take-empty (suc n) = refl

  take-add : (m n : ℕ) (l : List A) → take m l ++ take n (drop m l) ≡ take (m + n) l
  unfolding take drop
  take-add zero n l = take_same n (0 + n) l (omega arith)
  take-add (suc m) zero [] = sym (take-empty (suc m + 0))
  take-add (suc m) (suc n) [] = sym (take-empty (suc m + suc n))
  take-add (suc m) n (a ∷ l) =
      ap (λ r. a ∷ r) (take-add m n l) ∙ take_same (suc (m + n)) (suc m + n) (a ∷ l) (omega arith)

  take_all : (n : ℕ) (l : List A) → length l ≤ n → take n l ≡ l
  unfolding take
  take_all zero [] le = refl
  take_all zero (a ∷ l) le = absurd (omega (arith, le))
  take_all (suc n) [] le = refl
  take_all (suc n) (a ∷ l) le = ap (λ r. a ∷ r) (take_all n l (omega arith))

  first_pages-take :
      (count size n : ℕ) (rows : List A) → first_pages count size n rows ≡ take (n * size) rows
  unfolding first_pages page_of
  first_pages-take count size zero rows =
      take_same 0 (0 * size) rows (omega (arith, mul_comm 0 size))
  first_pages-take count size (suc n) rows =
      let offset : (suc n - 1) * size ≡ n * size = ap (λ k. k * size) (omega arith) in
      ap₂ (λ xs k. xs ++ take size (drop k rows)) (first_pages-take count size n rows) offset
      ∙ take-add (n * size) size rows
      ∙ take_same (n * size + size) (suc n * size) rows (sym (suc-mul n size))

rounded_up :
    (q r size count : ℕ)
    → size * q + r ≡ count
    → r < size
    → count ≤ (if r == 0 then q else q + 1) * size
rounded_up q zero size count whole lt = omega (arith, mul_comm q size)
rounded_up q (suc r) size count whole lt = grind (arith, mul_comm q size, add-mul q 1 size)

enough_pages : (count size : ℕ) → 0 < size → count ≤ pages_for count size * size
unfolding pages_for
enough_pages count size pos =
    rounded_up (count / size) (count % size) size count (div_any count size) (mod-lt count pos)

-- The pages of a result, from the first to the last of as many as are announced, hold every row once
-- and in order, if a page has room for one row at least.
pub page_of-all :
    {A : Type 0}
    → (rows : List A) (size : ℕ) → 0 < size
    → first_pages (length rows) size (pages_for (length rows) size) rows ≡ rows
page_of-all rows size pos =
    first_pages-take (length rows) size (pages_for (length rows) size) rows
    ∙ take_all (pages_for (length rows) size * size) rows (enough_pages (length rows) size pos)
