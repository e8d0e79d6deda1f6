-- ===== src/Api/Merkle.antt =====
-- The Merkle tree of an evidence package in server/api/handlers.go: lists of hashes by level.
pub mod Levels
pub mod Correct
use facto.Base.{
  ℕ, zero, suc, ◌+◌, ◌-◌, ◌/◌, ◌%◌, List, [], ◌∷◌, ◌++◌, Option, none, some, Bool, ltb, ◌==◌,
  if◌then◌else◌, length, last_or, get_elem?,
}
use facto.Base.Int.{ℤ, pos, negsuc}
use facto.Go.Text.{Bytes, codes}
use facto.Go.Hex
use facto.Go.Sha.{Digest}

pub record MerkleTree : Type 0 where
  pub root : Bytes
  pub leaves : List Bytes
  pub levels : List (List Bytes)

pub record ProofElement : Type 0 where
  pub hash : Bytes
  pub position : Bytes

-- If odd, duplicate last.
unfoldable pub pad : List Bytes → List Bytes
pad xs = if length xs % 2 == 1 then xs ++ last_or [] xs ∷ [] else xs

-- The element of one round of getProof, for the padded nodes of a level.
unfoldable pub element_at : List Bytes → ℕ → Bytes → List ProofElement
element_at nodes sibling_idx position = elim (get_elem? nodes sibling_idx) [
  | none ↦ []
  | some hash ↦ record { hash = hash; position = position } ∷ []
]

-- The loop of getProof over all levels but the last.
unfoldable pub proof_from : List (List Bytes) → ℕ → List ProofElement
unfolding pad element_at
proof_from [] idx = []
proof_from (top ∷ []) idx = []
proof_from (level ∷ above ∷ levels) idx =
    (if idx % 2 == 0
      then element_at (pad level) (idx + 1) (codes "right")
      else element_at (pad level) (idx - 1) (codes "left"))
    ++ proof_from (above ∷ levels) (idx / 2)

-- An index out of range gives nil.
unfoldable pub get_proof : MerkleTree → ℤ → List ProofElement
unfolding proof_from
get_proof t (negsuc n) = []
get_proof t (pos i) = if ltb i (length t.leaves) then proof_from t.levels i else []

module _ (sha256 : Digest) where
  unfoldable pub hash_pair : Bytes → Bytes → Bytes
  hash_pair left right = Hex.encode (sha256.sum (Hex.decode left ++ Hex.decode right))

  abbrev cons_hash : Bytes → Option (List Bytes) → Option (List Bytes)
  cons_hash x none = none
  cons_hash x (some xs) = some (x ∷ xs)

  -- `next`: the hashes of the pairs. A hash without a partner is an index out of range, which panics.
  unfoldable pub next_level : List Bytes → Option (List Bytes)
  unfolding hash_pair
  next_level [] = some []
  next_level (l ∷ []) = none
  next_level (l ∷ r ∷ rest) = cons_hash (hash_pair l r) (next_level rest)

  -- The loop of buildMerkleTree, which returns the levels and the last one's first hash; `none` means
  -- that the fuel ran out, or a panic.
  unfoldable pub build_levels :
      ℕ → List Bytes → List (List Bytes) → Option (List (List Bytes) × Bytes)
  build_levels zero current levels = none
  build_levels (suc fuel) [] levels = none
  build_levels (suc fuel) (x ∷ []) levels = some (levels, x)
  build_levels (suc fuel) (x ∷ y ∷ xs) levels = elim (next_level (pad (x ∷ y ∷ xs))) [
    | none ↦ none
    | some next ↦ build_levels fuel next (levels ++ next ∷ [])
  ]

  abbrev finish : List Bytes → Option (List (List Bytes) × Bytes) → Option MerkleTree
  finish hashes none = none
  finish hashes (some (levels, root)) =
      some (record { root = root; leaves = hashes; levels = levels })

  unfoldable pub build_merkle_tree : List Bytes → Option MerkleTree
  unfolding build_levels
  build_merkle_tree [] = some (record { root = []; leaves = []; levels = [] })
  build_merkle_tree (x ∷ xs) =
      finish (x ∷ xs) (build_levels (suc (length xs)) (x ∷ xs) ((x ∷ xs) ∷ []))
