-- ===== src/Go/Sort.antt =====
-- package sort: `sort.Slice` with a comparison of integer keys. It is not stable, so all that is known
-- is that it permutes, and that no element comes before one with a smaller key.
use mathlib.Core.List.{Perm}
use facto.Base.{List, [], ◌∷◌, Bool, true, false, ◌≡◌, All, ltb}
use facto.Base.Int.{ℤ, pos, negsuc}

-- `a < b`
unfoldable pub lt_int : ℤ → ℤ → Bool
lt_int (pos m) (pos n) = ltb m n
lt_int (pos m) (negsuc n) = false
lt_int (negsuc m) (pos n) = true
lt_int (negsuc m) (negsuc n) = ltb n m

abbrev pub IsSortedBy : {A : Type 0} → (A → ℤ) → List A → Type 0
IsSortedBy key [] = Unit {0}
IsSortedBy key (x ∷ xs) = All (λ y. lt_int (key y) (key x) ≡ false) xs × IsSortedBy key xs

pub record Sorter {A : Type 0} (key : A → ℤ) : Type 0 where
  pub sort : List A → List A
  pub sort-perm : (xs : List A) → Perm (sort xs) xs
  pub sort-IsSortedBy : (xs : List A) → IsSortedBy key (sort xs)
