-- ===== src/Tree/Size.antt =====
-- The sizes of the levels of a Merkle tree, and the fuel for its root.
use facto.Base.{
  ℕ, zero, suc, ◌+◌, ◌*◌, ◌/◌, ◌≤◌, ◌<◌, ◌≡◌, refl, List, [], ◌∷◌, some, arith, length,
  length-append, last_or, sym, ◌∙◌, dec_lt,
}
use facto.Go.Text.{Bytes}
use facto.Tree.{pad_level, pairs, root}

pub length-pad_level :
    (xs : List Bytes) → 1 < length xs → length (pad_level xs) ≡ (length xs + 1) / 2 * 2
unfolding pad_level
length-pad_level xs h = ground (arith, length-append xs (last_or [] xs ∷ []))

pub pad_level-one : (x : Bytes) → pad_level (x ∷ []) ≡ x ∷ []
unfolding pad_level
pad_level-one x = refl

pub length-pad_level_le : (xs : List Bytes) → length xs ≤ length (pad_level xs)
unfolding pad_level
length-pad_level_le xs = ground (arith, length-append xs (last_or [] xs ∷ []))

module _ (combine : Bytes → Bytes → Bytes) where
  pub length-pairs : (xs : List Bytes) → length (pairs combine xs) ≡ (length xs + 1) / 2
  unfolding pairs
  length-pairs [] = refl
  length-pairs (x ∷ []) = refl
  length-pairs (x ∷ y ∷ xs) = omega (arith, length-pairs xs)

  -- The level above two hashes or more is shorter, and not empty.
  pub next_level_size :
      (xs : List Bytes)
      → 1 < length xs
      → (length (pairs combine (pad_level xs)) < length xs)
        × (0 < length (pairs combine (pad_level xs)))
  next_level_size xs h = omega (arith, length-pairs (pad_level xs), length-pad_level xs h)

  -- As many rounds as there are hashes are enough.
  pub root_total :
      (fuel : ℕ) (xs : List Bytes)
      → 0 < length xs
      → length xs ≤ fuel
      → (r : Bytes) × (root combine fuel xs ≡ some r)
  unfolding root
  root_total zero xs p h = absurd (omega arith)
  root_total (suc fuel) [] p h = absurd (omega arith)
  root_total (suc fuel) (x ∷ []) p h = (x, refl)
  root_total (suc fuel) (x ∷ y ∷ xs) p h =
      let (less, more) = next_level_size (x ∷ y ∷ xs) (omega arith) in
      root_total fuel (pairs combine (pad_level (x ∷ y ∷ xs))) more (omega (arith, less))

  -- More rounds find the same root.
  pub root-fuel :
      (fuel more : ℕ) (xs : List Bytes) (r : Bytes)
      → root combine fuel xs ≡ some r
      → fuel ≤ more
      → root combine more xs ≡ some r
  unfolding root
  root-fuel zero more xs r e h = ground arith
  root-fuel (suc fuel) zero xs r e h = absurd (omega arith)
  root-fuel (suc fuel) (suc more) [] r e h = ground arith
  root-fuel (suc fuel) (suc more) (x ∷ []) r e h = e
  root-fuel (suc fuel) (suc more) (x ∷ y ∷ xs) r e h =
      root-fuel fuel more (pairs combine (pad_level (x ∷ y ∷ xs))) r e (omega arith)

  -- Any number of rounds that is enough finds the root that some number of rounds found.
  pub root-agree :
      (fuel other : ℕ) (xs : List Bytes) (r : Bytes)
      → 0 < length xs
      → length xs ≤ fuel
      → root combine other xs ≡ some r
      → root combine fuel xs ≡ some r
  root-agree fuel other xs r pos enough e =
      let (r', found) = root_total fuel xs pos enough in
      elim (dec_lt fuel other) [
        | yes l ↦ found ∙ sym (root-fuel fuel other xs r' found (omega arith)) ∙ e
        | no l ↦ root-fuel other fuel xs r e (omega arith)
      ]
