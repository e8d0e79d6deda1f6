-- ===== src/Tests/Sorting.antt =====
-- Insertion by key, a sort that keeps what package sort promises.
use mathlib.Core.List.{Perm}
use mathlib.Core.List.Perm
use facto.Base.{
  List, [], ◌∷◌, true, false, ◌≡◌, All, All-map_imp, Bool-cases, inl, inr, if◌then◌else◌, arith,
}
use facto.Base.Int.{ℤ, pos, negsuc}
use facto.Go.Sort.{lt_int, IsSortedBy, Sorter}

lt_int-asym : (a b : ℤ) → lt_int a b ≡ true → lt_int b a ≡ false
unfolding lt_int
lt_int-asym (pos m) (pos n) h = ground arith
lt_int-asym (pos m) (negsuc n) h = absurd (cc h)
lt_int-asym (negsuc m) (pos n) h = cc
lt_int-asym (negsuc m) (negsuc n) h = ground arith

lt_int-below : (a b c : ℤ) → lt_int a b ≡ false → lt_int b c ≡ false → lt_int a c ≡ false
unfolding lt_int
lt_int-below (pos l) (pos m) (pos n) h k = ground arith
lt_int-below (pos l) (pos m) (negsuc n) h k = cc
lt_int-below (pos l) (negsuc m) (pos n) h k = absurd (cc k)
lt_int-below (pos l) (negsuc m) (negsuc n) h k = cc
lt_int-below (negsuc l) (pos m) c h k = absurd (cc h)
lt_int-below (negsuc l) (negsuc m) (pos n) h k = absurd (cc k)
lt_int-below (negsuc l) (negsuc m) (negsuc n) h k = ground arith

module _ {A : Type 0} (key : A → ℤ) where
  abbrev insert : A → List A → List A
  insert x [] = x ∷ []
  insert x (y ∷ ys) =
      let later = insert x ys in if lt_int (key y) (key x) then y ∷ later else x ∷ y ∷ ys

  abbrev sorted : List A → List A
  sorted [] = []
  sorted (x ∷ xs) = insert x (sorted xs)

  insert-perm : (x : A) (xs : List A) → Perm (insert x xs) (x ∷ xs)
  insert-perm x [] = Perm.refl (x ∷ [])
  insert-perm x (y ∷ ys) = elim (Bool-cases (lt_int (key y) (key x))) [
    | inl t ↦ rw t (Perm.trans (Perm.cons y (insert-perm x ys)) (Perm.swap x y ys))
    | inr f ↦ rw f (Perm.refl (x ∷ y ∷ ys))
  ]

  pub sorted-perm : (xs : List A) → Perm (sorted xs) xs
  sorted-perm [] = Perm.refl []
  sorted-perm (x ∷ xs) = Perm.trans (insert-perm x (sorted xs)) (Perm.cons x (sorted-perm xs))

  insert-All : (P : A → Type 0) (x : A) (xs : List A) → P x → All P xs → All P (insert x xs)
  insert-All P x [] p h = (p, tt)
  insert-All P x (y ∷ ys) p h = elim (Bool-cases (lt_int (key y) (key x))) [
    | inl t ↦ rw t (h.0, insert-All P x ys p h.1)
    | inr f ↦ rw f (p, h)
  ]

  insert-IsSortedBy : (x : A) (xs : List A) → IsSortedBy key xs → IsSortedBy key (insert x xs)
  insert-IsSortedBy x [] h = (tt, tt)
  insert-IsSortedBy x (y ∷ ys) h = elim (Bool-cases (lt_int (key y) (key x))) [
    | inl t ↦ rw t (
      insert-All (λ z. lt_int (key z) (key y) ≡ false) x ys (lt_int-asym (key y) (key x) t) h.0,
      insert-IsSortedBy x ys h.1,
    )
    | inr f ↦ rw f (
      (
        f,
        All-map_imp (λ z. lt_int (key z) (key y) ≡ false) (λ z. lt_int (key z) (key x) ≡ false)
            (λ z g. lt_int-below (key z) (key y) (key x) g f) ys h.0,
      ),
      h,
    )
  ]

  pub sorted-IsSortedBy : (xs : List A) → IsSortedBy key (sorted xs)
  sorted-IsSortedBy [] = tt
  sorted-IsSortedBy (x ∷ xs) = insert-IsSortedBy x (sorted xs) (sorted-IsSortedBy xs)

  abbrev pub insertion : Sorter key
  insertion = record { sort = sorted; sort-perm = sorted-perm; sort-IsSortedBy = sorted-IsSortedBy }
