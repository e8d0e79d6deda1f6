-- ===== src/Processor/Merkle.antt =====
-- server/processor/merkle.go. Nodes live in a heap and point at one another: `*MerkleNode` is a
-- pointer into it, and nil is `none`. Go's pointers never dangle, so every pointer has a node.
pub mod Nodes
pub mod Links
pub mod Pairs
pub mod Build
pub mod Whole
pub mod Walk
pub mod Correct
pub mod Binding
use facto.Base.{
  ℕ, zero, suc, ◌%◌, List, [], ◌∷◌, ◌++◌, Option, none, some, Bool, false, ◌&&◌, ltb, ◌==◌,
  if◌then◌else◌, length, last_or, get_elem?, eq_bytes,
}
use facto.Base.Int.{ℤ, pos, negsuc}
use facto.Go.Text.{Bytes, codes}
use facto.Go.Hex
use facto.Go.Sha.{Digest}

abbrev pub Ptr : Type 0
Ptr = ℕ

pub record MerkleNode : Type 0 where
  pub hash : Bytes
  pub left : Option Ptr
  pub right : Option Ptr
  pub parent : Option Ptr

pub record Heap : Type 0 where
  pub next : Ptr
  pub cell : Ptr → MerkleNode

pub record MerkleTree : Type 0 where
  pub root : Option Ptr
  pub leaves : List Ptr

pub record ProofElement : Type 0 where
  pub hash : Bytes
  pub position : Bytes

-- `&MerkleNode{Hash: hash}`
abbrev pub leaf_node : Bytes → MerkleNode
leaf_node hash = record { hash = hash; left = none; right = none; parent = none }

abbrev pub empty_heap : Heap
empty_heap = record { next = 0; cell = λ p. leaf_node [] }

unfoldable pub alloc : MerkleNode → Heap → Ptr × Heap
alloc n h = (h.next, record { next = suc h.next; cell = λ p. if p == h.next then n else h.cell p })

-- `p.Parent = q`
unfoldable pub set_parent : Ptr → Ptr → Heap → Heap
set_parent p q h = record h {
  cell = λ x. if x == p then record (h.cell x) { parent = some q } else h.cell x;
}

-- A fresh leaf for each hash.
unfoldable pub add_leaves : List Bytes → Heap → List Ptr × Heap
unfolding alloc
add_leaves [] h = ([], h)
add_leaves (x ∷ xs) h =
    let (p, h₁) = alloc (leaf_node x) h in let (ps, h₂) = add_leaves xs h₁ in (p ∷ ps, h₂)

-- `append(nodes, &MerkleNode{Hash: nodes[len(nodes)-1].Hash})`
unfoldable pub duplicate_last : List Ptr → Heap → List Ptr × Heap
unfolding alloc
duplicate_last ps h =
    let (p, h') = alloc (leaf_node (h.cell (last_or 0 ps)).hash) h in (ps ++ p ∷ [], h')

unfoldable pub pad_leaves : List Ptr → Heap → List Ptr × Heap
unfolding duplicate_last
pad_leaves ps h = if length ps % 2 == 1 then duplicate_last ps h else (ps, h)

unfoldable pub pad_parents : List Ptr → Heap → List Ptr × Heap
unfolding duplicate_last
pad_parents ps h =
    if ltb 1 (length ps) && (length ps % 2 == 1) then duplicate_last ps h else (ps, h)

-- `parent.Left == node`
abbrev pub points_to : Option Ptr → Ptr → Bool
points_to none p = false
points_to (some q) p = q == p

-- The elements that one round of the walk appends.
abbrev pub sibling_element : Heap → Option Ptr → Bytes → List ProofElement
sibling_element h none position = []
sibling_element h (some s) position = record { hash = (h.cell s).hash; position = position } ∷ []

unfoldable pub proof_step : Heap → Ptr → Ptr → List ProofElement
proof_step h node parent =
    if points_to (h.cell parent).left node
    then sibling_element h (h.cell parent).right (codes "right")
    else sibling_element h (h.cell parent).left (codes "left")

abbrev pub append_to : List ProofElement → Option (List ProofElement) → Option (List ProofElement)
append_to es none = none
append_to es (some rest) = some (es ++ rest)

-- `for node.Parent != nil`; `none` means that the fuel ran out.
unfoldable pub climb : ℕ → Heap → Ptr → Option (List ProofElement)
unfolding proof_step
climb zero h node = none
climb (suc fuel) h node = elim (h.cell node).parent [
  | none ↦ some []
  | some parent ↦ append_to (proof_step h node parent) (climb fuel h parent)
]

-- An index out of range, a negative one too, gives nil.
unfoldable pub get_proof : Heap → MerkleTree → ℤ → Option (List ProofElement)
unfolding climb
get_proof h t (negsuc n) = some []
get_proof h t (pos i) = elim (get_elem? t.leaves i) [
  | none ↦ some []
  | some node ↦ climb (suc h.next) h node
]

-- `Root()`
unfoldable pub root_hash : Heap → MerkleTree → Bytes
root_hash h t = elim t.root [ none ↦ [] | some p ↦ (h.cell p).hash ]

module _ (sha256 : Digest) where
  -- hashPair computes SHA256(left || right).
  unfoldable pub hash_pair : Bytes → Bytes → Bytes
  hash_pair left right = Hex.encode (sha256.sum (Hex.decode left ++ Hex.decode right))

  -- One round of the loop of buildTree: the new parent, and the links of its two children.
  unfoldable pub join : Ptr → Ptr → Heap → Ptr × Heap
  unfolding alloc set_parent
  join left right h =
      let hash = hash_pair (h.cell left).hash (h.cell right).hash in
      let node : MerkleNode = record {
        hash = hash;
        left = some left;
        right = some right;
        parent = none;
      } in
      let (p, h₁) = alloc node h in (p, set_parent right p (set_parent left p h₁))

  unfoldable pub pair_up : List Ptr → Heap → List Ptr × Heap
  pair_up [] h = ([], h)
  pair_up (l ∷ []) h = let (p, h₁) = join l l h in (p ∷ [], h₁)
  pair_up (l ∷ r ∷ rest) h =
      let (p, h₁) = join l r h in let (ps, h₂) = pair_up rest h₁ in (p ∷ ps, h₂)

  -- buildTree; `none` means that the fuel ran out, as it does for no nodes at all.
  unfoldable pub build_tree : ℕ → List Ptr → Heap → Option (Ptr × Heap)
  unfolding pad_parents
  build_tree zero ps h = none
  build_tree (suc fuel) [] h = build_tree fuel [] h
  build_tree (suc fuel) (p ∷ []) h = some (p, h)
  build_tree (suc fuel) (p ∷ q ∷ ps) h =
      let (parents, h₁) = pair_up (p ∷ q ∷ ps) h in
      let (padded, h₂) = pad_parents parents h₁ in build_tree fuel padded h₂

  abbrev pub finish : List Ptr → Option (Ptr × Heap) → Option (MerkleTree × Heap)
  finish leaves none = none
  finish leaves (some (p, h)) = some (record { root = some p; leaves = leaves }, h)

  -- BuildMerkleTree. For no hashes the root is the digest of nothing, and there are no leaves.
  unfoldable pub build_merkle_tree : List Bytes → Option (MerkleTree × Heap)
  unfolding alloc add_leaves pad_leaves build_tree
  build_merkle_tree [] =
      let (p, h) = alloc (leaf_node (Hex.encode (sha256.sum []))) empty_heap in
      some (record { root = some p; leaves = [] }, h)
  build_merkle_tree (x ∷ xs) =
      let (created, h₁) = add_leaves (x ∷ xs) empty_heap in
      let (leaves, h₂) = pad_leaves created h₁ in
      finish leaves (build_tree (length leaves) leaves h₂)

  -- One round of VerifyProof.
  unfoldable pub fold_element : Bytes → ProofElement → Bytes
  fold_element current element =
      if eq_bytes element.position (codes "left")
      then hash_pair element.hash current
      else hash_pair current element.hash

  unfoldable pub fold_proof : Bytes → List ProofElement → Bytes
  fold_proof current [] = current
  fold_proof current (element ∷ rest) = fold_proof (fold_element current element) rest

  unfoldable pub verify_proof : Bytes → List ProofElement → Bytes → Bool
  verify_proof leaf_hash proof root = eq_bytes (fold_proof leaf_hash proof) root
