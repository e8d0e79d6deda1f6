-- ===== src/Tree.antt =====
-- The levels of a Merkle tree as lists of hashes, with no nodes: what both implementations promise.
pub mod Size
use facto.Base.{
  ℕ, zero, suc, ◌%◌, List, [], ◌∷◌, ◌++◌, Option, none, some, ◌&&◌, ltb, ◌==◌, if◌then◌else◌,
  length, last_or,
}
use facto.Go.Text.{Bytes}

-- A level of odd length, but not a single hash, has its last hash twice.
unfoldable pub pad_level : List Bytes → List Bytes
pad_level xs = if ltb 1 (length xs) && (length xs % 2 == 1) then xs ++ last_or [] xs ∷ [] else xs

module _ (combine : Bytes → Bytes → Bytes) where
  -- The level above: each pair combined, a hash without a partner with itself.
  unfoldable pub pairs : List Bytes → List Bytes
  pairs [] = []
  pairs (l ∷ []) = combine l l ∷ []
  pairs (l ∷ r ∷ xs) = combine l r ∷ pairs xs

  -- The root above a level, reached in fewer than `fuel` levels.
  unfoldable pub root : ℕ → List Bytes → Option Bytes
  root zero xs = none
  root (suc fuel) [] = none
  root (suc fuel) (x ∷ []) = some x
  root (suc fuel) (x ∷ y ∷ xs) = root fuel (pairs (pad_level (x ∷ y ∷ xs)))
