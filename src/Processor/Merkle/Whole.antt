-- ===== src/Processor/Merkle/Whole.antt =====
-- BuildMerkleTree of server/processor/merkle.go as a whole: the tree that it leaves in the heap.
use facto.Base.{
  ◌<◌, ◌≡◌, refl, ◌⊎◌, inr, some, List, [], ◌∷◌, arith, ◌∙◌, sym, ap, length, ap₂, length-map,
}
use facto.Go.Text.{Bytes}
use facto.Go.Sha.{Digest}
use facto.Tree
use facto.Tree.Size
use facto.Processor.Merkle.{
  Ptr, Heap, MerkleTree, alloc, leaf_node, empty_heap, hash_pair, pad_leaves, add_leaves,
  build_merkle_tree, finish,
}
use facto.Processor.Merkle.Nodes.{
  In, AreIn, hashes, Extends-refl, Extends-trans, Extends-AreIn, hashes-Extends, alloc-Extends,
}
use facto.Processor.Merkle.Links.{IsLinked, IsLinked-weaken, alloc-IsLinked}
use facto.Processor.Merkle.Pairs.{Yields, regroup}
use facto.Processor.Merkle.Build.{
  duplicate_last-Yields, pad_parents-Yields, pad_leaves-eq-pad_parents,
}
use facto.Processor.Merkle.Build.{build_tree-Builds}

-- The leaves that BuildMerkleTree pairs, before an odd level is padded: a single hash counts twice.
abbrev pub leaf_hashes : List Bytes → List Bytes
leaf_hashes [] = []
leaf_hashes (x ∷ []) = x ∷ x ∷ []
leaf_hashes (x ∷ y ∷ xs) = x ∷ y ∷ xs

module _ (sha256 : Digest) where
  add_leaves-Yields {κ} :
      (xs : List Bytes) (h : Heap) (K : Ptr → Type κ)
      → IsLinked sha256 h K
      → Yields sha256 h K xs (add_leaves xs h)
  unfolding add_leaves
  add_leaves-Yields [] h K k = record {
    extends = Extends-refl h;
    inside = tt;
    hashed = refl;
    linked = IsLinked-weaken sha256 h _ _ (λ p a. inr a) k;
  }
  add_leaves-Yields (x ∷ xs) h K k =
      let y =
        add_leaves-Yields xs (alloc (leaf_node x) h).1 (λ p. K p ⊎ (p ≡ h.next))
          (alloc-IsLinked sha256 (leaf_node x) h K refl k) in
      let out = add_leaves xs (alloc (leaf_node x) h).1 in
      record {
        extends = Extends-trans (alloc-Extends (leaf_node x) h) y.extends;
        inside = (omega (arith, y.extends.grows), y.inside);
        hashed = ap₂ ◌∷◌ (y.extends.keeps h.next (omega arith) ∙ ground arith) y.hashed;
        linked = IsLinked-weaken sha256 out.1 _ _ (regroup sha256 h.next out.0 K) y.linked;
      }

  -- The leaves are padded so that their hashes are those of a padded level.
  pad_leaves-Yields {κ} :
      (ps : List Ptr) (h : Heap) (K : Ptr → Type κ)
      → AreIn h ps
      → IsLinked sha256 h (λ q. In q ps ⊎ K q)
      → Yields sha256 h K (Tree.pad_level (leaf_hashes (hashes h ps))) (pad_leaves ps h)
  unfolding pad_leaves Tree.pad_level
  pad_leaves-Yields [] h K i k = record {
    extends = Extends-refl h;
    inside = tt;
    hashed = refl;
    linked = k;
  }
  pad_leaves-Yields (p ∷ []) h K i k = duplicate_last-Yields sha256 p [] h K i k
  pad_leaves-Yields (p ∷ q ∷ ps) h K i k =
      rw (pad_leaves-eq-pad_parents sha256 (p ∷ q ∷ ps) h (omega arith))
        (pad_parents-Yields sha256 (p ∷ q ∷ ps) h K i k)

  -- What BuildMerkleTree leaves for the hashes `xs`.
  pub record IsTree (xs : List Bytes) (t : MerkleTree) (h : Heap) : Type 0 where
    pub top : Ptr
    pub top_is : t.root ≡ some top
    pub top_in : top < h.next
    pub linked : IsLinked sha256 h (λ p. p ≡ top)
    pub leaves_in : AreIn h t.leaves
    pub leaves_hashed : hashes h t.leaves ≡ Tree.pad_level (leaf_hashes xs)
    pub rooted :
        Tree.root (hash_pair sha256) (length t.leaves) (leaf_hashes xs) ≡ some (h.cell top).hash

  no_nodes : IsLinked sha256 empty_heap (λ p. ⊥)
  no_nodes p x = absurd (omega arith)

  pub length-leaf_hashes : (x : Bytes) (xs : List Bytes) → 0 < length (leaf_hashes (x ∷ xs))
  length-leaf_hashes x [] = omega arith
  length-leaf_hashes x (y ∷ xs) = omega arith

  pub build_merkle_tree-IsTree :
      (x : Bytes) (xs : List Bytes)
      → (t : MerkleTree) × (h : Heap) × (build_merkle_tree sha256 (x ∷ xs) ≡ some (t, h))
        × IsTree (x ∷ xs) t h
  unfolding build_merkle_tree
  build_merkle_tree-IsTree x xs =
      let all = x ∷ xs in
      let created = add_leaves all empty_heap in
      let c = add_leaves-Yields all empty_heap (λ _. ⊥) no_nodes in
      let padded = pad_leaves created.0 created.1 in
      let l = pad_leaves-Yields created.0 created.1 (λ _. ⊥) c.inside c.linked in
      let e = l.hashed ∙ ap (λ l. Tree.pad_level (leaf_hashes l)) c.hashed in
      let n : length padded.0 ≡ length (Tree.pad_level (leaf_hashes all)) =
        sym (length-map (λ p. (padded.1.cell p).hash) padded.0) ∙ ap length e in
      let (out, found, b) =
        build_tree-Builds sha256 (length padded.0) (leaf_hashes all) padded.0 padded.1
          (length-leaf_hashes x xs) (omega (arith, n, Size.length-pad_level_le (leaf_hashes all)))
          l.inside e l.linked in
      (
        record { root = some out.0; leaves = padded.0 },
        out.1,
        ap (finish sha256 padded.0) found,
        record {
          top = out.0;
          top_is = refl;
          top_in = b.inside;
          linked = b.linked;
          leaves_in = Extends-AreIn padded.0 b.extends l.inside;
          leaves_hashed = hashes-Extends padded.0 b.extends l.inside ∙ e;
          rooted = b.rooted;
        },
      )
