-- ===== src/Base/Members.antt =====
-- Lists with an element that satisfies a predicate, and lists whose elements all do.
use mathlib.Core.Path.{◌≡◌, subst, sym}
use mathlib.Core.Logic.{◌⊎◌, inl, inr}
use mathlib.Core.List.{List, [], ◌∷◌, ◌++◌, Sublistᴰ}
use facto.Base.Lists.{All}

-- Some element satisfies `P`.
abbrev pub Has : {R : Type 0} → (R → Type 0) → List R → Type 0
Has P [] = ⊥
Has P (r ∷ rs) = P r ⊎ Has P rs

module _ {R : Type 0} where
  pub Has-append_left : (P : R → Type 0) (xs ys : List R) → Has P xs → Has P (xs ++ ys)
  Has-append_left P [] ys h = absurd h
  Has-append_left P (x ∷ xs) ys (inl h) = inl h
  Has-append_left P (x ∷ xs) ys (inr h) = inr (Has-append_left P xs ys h)

  pub Has-append_right : (P : R → Type 0) (xs ys : List R) → Has P ys → Has P (xs ++ ys)
  Has-append_right P [] ys h = h
  Has-append_right P (x ∷ xs) ys h = inr (Has-append_right P xs ys h)

  pub Has-map_imp : (P Q : R → Type 0) (f : (r : R) → P r → Q r) (rs : List R) → Has P rs → Has Q rs
  Has-map_imp P Q f [] h = h
  Has-map_imp P Q f (r ∷ rs) (inl p) = inl (f r p)
  Has-map_imp P Q f (r ∷ rs) (inr h) = inr (Has-map_imp P Q f rs h)

  pub All-Has : (P : R → Type 0) (r : R) (rs : List R) → All P rs → Has (λ s. s ≡ r) rs → P r
  All-Has P r [] a h = absurd h
  All-Has P r (s ∷ rs) a (inl e) = subst P e a.0
  All-Has P r (s ∷ rs) a (inr h) = All-Has P r rs a.1 h

  pub All-both : (P Q : R → Type 0) (xs : List R) → All P xs → All Q xs → All (λ x. P x × Q x) xs
  All-both P Q [] p q = tt
  All-both P Q (x ∷ xs) p q = ((p.0, q.0), All-both P Q xs p.1 q.1)

  pub All-zip :
      (P Q S : R → Type 0) (xs : List R)
      → All P xs
      → All Q xs
      → All S xs
      → All (λ x. P x × Q x × S x) xs
  All-zip P Q S [] p q s = tt
  All-zip P Q S (x ∷ xs) p q s = ((p.0, q.0, s.0), All-zip P Q S xs p.1 q.1 s.1)

  pub All-sublist : (P : R → Type 0) (xs ys : List R) → Sublistᴰ xs ys → All P ys → All P xs
  All-sublist P [] [] Sublistᴰ.slnil h = h
  All-sublist P (x ∷ xs) [] s h = elim s [ ]
  All-sublist P xs (y ∷ ys) (Sublistᴰ.cons s) h = All-sublist P xs ys s h.1
  All-sublist P (x ∷ xs) (y ∷ ys) (Sublistᴰ.cons-cons e s) h =
      (subst P (sym e) h.0, All-sublist P xs ys s h.1)
