-- ===== src/Processor/Merkle/Correct.antt =====
-- What BuildMerkleTree, Root, GetProof and VerifyProof of server/processor/merkle.go promise together.
use facto.Base.{
  ℕ, zero, suc, ◌≤◌, ◌<◌, ◌≡◌, some, List, [], ◌∷◌, arith, ◌∙◌, sym, ap, true, length, get_elem?,
  get_elem?-map_inv, get_elem?-append_left, get_elem?-some_lt, All-get_elem?, eq_bytes_refl,
  last_or,
}
use facto.Base.Int.{pos}
use facto.Go.Text.{Bytes}
use facto.Go.Sha.{Digest}
use facto.Tree
use facto.Tree.Size
use facto.Processor.Merkle.{
  Ptr, Heap, MerkleTree, ProofElement, hash_pair, build_merkle_tree, get_proof, root_hash, climb,
  fold_proof, verify_proof,
}
use facto.Processor.Merkle.Whole.{leaf_hashes, IsTree, build_merkle_tree-IsTree, length-leaf_hashes}
use facto.Processor.Merkle.Walk.{climb-lem}

pub get_elem?-pad_level :
    (xs : List Bytes) (i : ℕ) (a : Bytes)
    → get_elem? xs i ≡ some a
    → get_elem? (Tree.pad_level xs) i ≡ some a
unfolding Tree.pad_level
get_elem?-pad_level xs i a e =
    ground (arith, get_elem?-append_left xs (last_or [] xs ∷ []) i (get_elem?-some_lt xs i a e))

get_elem?-leaf_hashes :
    (xs : List Bytes) (i : ℕ) (a : Bytes)
    → get_elem? xs i ≡ some a
    → get_elem? (leaf_hashes xs) i ≡ some a
get_elem?-leaf_hashes [] i a e = e
get_elem?-leaf_hashes (x ∷ []) zero a e = e
get_elem?-leaf_hashes (x ∷ []) (suc i) a e = absurd (cc e)
get_elem?-leaf_hashes (x ∷ y ∷ xs) i a e = e

length-leaf_hashes_le :
    (x : Bytes) (xs : List Bytes) → length (leaf_hashes (x ∷ xs)) ≤ suc (suc (length xs))
length-leaf_hashes_le x [] = omega arith
length-leaf_hashes_le x (y ∷ xs) = omega arith

get_proof-leaf :
    (h : Heap) (t : MerkleTree) (i : ℕ) (p : Ptr)
    → get_elem? t.leaves i ≡ some p
    → get_proof h t (pos i) ≡ climb (suc h.next) h p
unfolding get_proof
get_proof-leaf h t i p e = rw (e, get_proof)

module _ (sha256 : Digest) where
  verify_proof-fold :
      (leaf : Bytes) (proof : List ProofElement) (root : Bytes)
      → fold_proof sha256 leaf proof ≡ root
      → verify_proof sha256 leaf proof root ≡ true
  unfolding verify_proof
  verify_proof-fold leaf proof root e = rw e (eq_bytes_refl root)

  module _ (xs : List Bytes) (t : MerkleTree) (h : Heap) (s : IsTree sha256 xs t h) where
    root_hash-top : root_hash h t ≡ (h.cell s.top).hash
    unfolding root_hash
    root_hash-top = rw s.top_is

    leaf_at :
        (i : ℕ) (leaf : Bytes)
        → get_elem? xs i ≡ some leaf
        → (p : Ptr) × (get_elem? t.leaves i ≡ some p) × ((h.cell p).hash ≡ leaf)
    leaf_at i leaf e =
        get_elem?-map_inv (λ p. (h.cell p).hash) t.leaves i leaf
          (ap (λ l. get_elem? l i) s.leaves_hashed
            ∙ get_elem?-pad_level (leaf_hashes xs) i leaf (get_elem?-leaf_hashes xs i leaf e))

    proof_of_leaf :
        (i : ℕ) (leaf : Bytes)
        → get_elem? xs i ≡ some leaf
        → (proof : List ProofElement) × (get_proof h t (pos i) ≡ some proof)
          × (verify_proof sha256 leaf proof (root_hash h t) ≡ true)
    proof_of_leaf i leaf e =
        let (p, at, hashed) = leaf_at i leaf e in
        let (es, found, folded) =
          climb-lem sha256 h s.top s.linked h.next p (All-get_elem? _ t.leaves i p s.leaves_in at)
            (omega arith) in
        let same = ap (λ x. fold_proof sha256 x es) (sym hashed) ∙ folded ∙ sym root_hash-top in
        (es, get_proof-leaf h t i p at ∙ found, verify_proof-fold leaf es _ same)

  -- BuildMerkleTree returns a tree for any hashes, and the proof that GetProof gives for the index of
  -- one of them is accepted by VerifyProof against the tree's root.
  pub verify_proof-get_proof :
      (x : Bytes) (xs : List Bytes) (i : ℕ) (leaf : Bytes)
      → get_elem? (x ∷ xs) i ≡ some leaf
      → (t : MerkleTree) × (h : Heap) × (proof : List ProofElement) × (build_merkle_tree sha256
            (x ∷ xs)
          ≡ some (t, h))
        × (get_proof h t (pos i) ≡ some proof)
        × (verify_proof sha256 leaf proof (root_hash h t) ≡ true)
  verify_proof-get_proof x xs i leaf e =
      let (t, h, built, s) = build_merkle_tree-IsTree sha256 x xs in
      let (proof, found, good) = proof_of_leaf (x ∷ xs) t h s i leaf e in
      (t, h, proof, built, found, good)

  -- The root of the tree that BuildMerkleTree returns is the one reached by halving the padded list
  -- of hashes, level by level, where a single hash counts twice.
  pub root_hash-build_merkle_tree :
      (x : Bytes) (xs : List Bytes) (fuel : ℕ)
      → suc (length xs) < fuel
      → (t : MerkleTree) × (h : Heap) × (build_merkle_tree sha256 (x ∷ xs) ≡ some (t, h))
        × (Tree.root (hash_pair sha256) fuel (leaf_hashes (x ∷ xs)) ≡ some (root_hash h t))
  root_hash-build_merkle_tree x xs fuel f =
      let (t, h, built, s) = build_merkle_tree-IsTree sha256 x xs in
      (
        t,
        h,
        built,
        Size.root-agree (hash_pair sha256) fuel (length t.leaves) (leaf_hashes (x ∷ xs)) _
              (length-leaf_hashes sha256 x xs) (omega (arith, length-leaf_hashes_le x xs)) s.rooted
            ∙ ap some (sym (root_hash-top (x ∷ xs) t h s)),
      )
