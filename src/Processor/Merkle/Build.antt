-- ===== src/Processor/Merkle/Build.antt =====
-- buildTree and BuildMerkleTree of server/processor/merkle.go: the leaves, the padding, and the whole
-- tree above them.
use facto.Base.{
  ℕ, zero, suc, ◌≤◌, ◌<◌, ◌≡◌, refl, ◌⊎◌, inl, inr, some, List, [], ◌∷◌, ◌++◌, arith, ◌∙◌, sym, ap,
  length, last_or, Bool-cases, ltb, ◌==◌, ◌%◌, ◌&&◌, ap₂, All-append, length-map, lt→ltb,
}
use mathlib.Core.List.{map-append}
use facto.Go.Text.{Bytes}
use facto.Go.Sha.{Digest}
use facto.Tree
use facto.Tree.Size
use facto.Processor.Merkle.{
  Ptr, Heap, alloc, leaf_node, hash_pair, pair_up, pad_parents, pad_leaves, duplicate_last,
  build_tree,
}
use facto.Processor.Merkle.Nodes.{
  In, AreIn, hashes, Extends, Extends-refl, Extends-trans, Extends-AreIn, hashes-Extends,
  alloc-Extends,
}
use facto.Processor.Merkle.Links.{IsLinked, IsLinked-weaken, alloc-IsLinked}
use facto.Processor.Merkle.Pairs.{Yields, pair_up-Yields}

pub In-append_left : (p : Ptr) (ps qs : List Ptr) → In p ps → In p (ps ++ qs)
In-append_left p [] qs i = absurd i
In-append_left p (x ∷ ps) qs (inl e) = inl e
In-append_left p (x ∷ ps) qs (inr i) = inr (In-append_left p ps qs i)

pub In-append_right : (p : Ptr) (ps qs : List Ptr) → In p qs → In p (ps ++ qs)
In-append_right p [] qs i = i
In-append_right p (x ∷ ps) qs i = inr (In-append_right p ps qs i)

last_or-hashes :
    (h : Heap) (d : Bytes) (x p : Ptr) (ps : List Ptr)
    → last_or d (hashes h (p ∷ ps)) ≡ (h.cell (last_or x (p ∷ ps))).hash
last_or-hashes h d x p [] = refl
last_or-hashes h d x p (q ∷ ps) = last_or-hashes h (h.cell p).hash p q ps

module _ (sha256 : Digest) where
  module _ {κ} (p : Ptr) (ps : List Ptr) (h : Heap) (K : Ptr → Type κ) where
    -- The copy of the last node waits beside the others.
    pub duplicate_last-Yields :
        AreIn h (p ∷ ps)
        → IsLinked sha256 h (λ q. In q (p ∷ ps) ⊎ K q)
        → Yields sha256 h K
            (hashes h (p ∷ ps) ++ last_or [] (hashes h (p ∷ ps)) ∷ [])
            (duplicate_last (p ∷ ps) h)
    unfolding duplicate_last
    duplicate_last-Yields i k = record {
      extends = ext;
      inside = All-append _ (p ∷ ps) (h.next ∷ []) (Extends-AreIn (p ∷ ps) ext i) (omega arith, tt);
      hashed = copied;
      linked = IsLinked-weaken sha256 h' _ _ place (alloc-IsLinked sha256 _ h _ refl k);
    }
      where
        h' : Heap
        h' = (alloc (leaf_node (h.cell (last_or 0 (p ∷ ps))).hash) h).1

        ext : Extends h h'
        ext = alloc-Extends (leaf_node (h.cell (last_or 0 (p ∷ ps))).hash) h

        place :
            (q : Ptr) → (In q (p ∷ ps) ⊎ K q) ⊎ (q ≡ h.next) → In q ((p ∷ ps) ++ h.next ∷ []) ⊎ K q
        place q (inl (inl a)) = inl (In-append_left q (p ∷ ps) _ a)
        place q (inl (inr a)) = inr a
        place q (inr a) = inl (In-append_right q (p ∷ ps) _ (inl a))

        new : (h'.cell h.next).hash ≡ (h.cell (last_or 0 (p ∷ ps))).hash
        new = ground arith

        copied :
            hashes h' ((p ∷ ps) ++ h.next ∷ [])
            ≡ hashes h (p ∷ ps) ++ last_or [] (hashes h (p ∷ ps)) ∷ []
        copied =
            map-append (λ q. (h'.cell q).hash) (p ∷ ps) (h.next ∷ [])
            ∙ ap₂ ◌++◌ (hashes-Extends (p ∷ ps) ext i)
                (ap (λ x. x ∷ []) (new ∙ sym (last_or-hashes h [] 0 p ps)))

  module _ {κ} (ps : List Ptr) (h : Heap) (K : Ptr → Type κ) where
    unpadded :
        AreIn h ps
        → IsLinked sha256 h (λ q. In q ps ⊎ K q)
        → Yields sha256 h K (hashes h ps) (ps, h)
    unpadded i k = record { extends = Extends-refl h; inside = i; hashed = refl; linked = k }

  -- pad_parents pads a level.
  pub pad_parents-Yields {κ} :
      (ps : List Ptr) (h : Heap) (K : Ptr → Type κ)
      → AreIn h ps
      → IsLinked sha256 h (λ q. In q ps ⊎ K q)
      → Yields sha256 h K (Tree.pad_level (hashes h ps)) (pad_parents ps h)
  unfolding pad_parents Tree.pad_level
  pad_parents-Yields [] h K i k = unpadded [] h K i k
  pad_parents-Yields (p ∷ ps) h K i k =
      rw (length-map (λ q. (h.cell q).hash) ps)
        (elim (Bool-cases (ltb 1 (length (p ∷ ps)) && (length (p ∷ ps) % 2 == 1))) [
          | inl odd ↦ rw odd (duplicate_last-Yields p ps h K i k)
          | inr even ↦ rw even (unpadded (p ∷ ps) h K i k)
        ])

  -- pad_leaves pads two leaves or more as pad_parents pads any level.
  pub pad_leaves-eq-pad_parents :
      (ps : List Ptr) (h : Heap) → 1 < length ps → pad_leaves ps h ≡ pad_parents ps h
  unfolding pad_leaves pad_parents
  pad_leaves-eq-pad_parents ps h l = rw (lt→ltb 1 (length ps) l)

  -- One level of buildTree.
  level_up {κ} :
      (ps : List Ptr) (h : Heap) (K : Ptr → Type κ) (out : List Ptr × Heap) (xs : List Bytes)
      → Yields sha256 h K xs out
      → Yields sha256 h K (Tree.pad_level xs) (pad_parents out.0 out.1)
  level_up ps h K out xs y =
      let z = pad_parents-Yields out.0 out.1 K y.inside y.linked in
      record {
        extends = Extends-trans y.extends z.extends;
        inside = z.inside;
        hashed = z.hashed ∙ ap Tree.pad_level y.hashed;
        linked = z.linked;
      }

  only : (p q : Ptr) → In q (p ∷ []) ⊎ ⊥ → q ≡ p
  only p q (inl (inl e)) = e
  only p q (inl (inr a)) = absurd a
  only p q (inr a) = absurd a

  -- The tree that buildTree leaves above nodes whose padded hashes are those of `xs`.
  pub record Builds (fuel : ℕ) (h : Heap) (xs : List Bytes) (out : Ptr × Heap) : Type 0 where
    pub extends : Extends h out.1
    pub inside : out.0 < out.1.next
    pub rooted : Tree.root (hash_pair sha256) fuel xs ≡ some (out.1.cell out.0).hash
    pub linked : IsLinked sha256 out.1 (λ p. p ≡ out.0)

  pub build_tree-Builds :
      (fuel : ℕ) (xs : List Bytes) (ps : List Ptr) (h : Heap)
      → 0 < length xs
      → length xs ≤ fuel
      → AreIn h ps
      → hashes h ps ≡ Tree.pad_level xs
      → IsLinked sha256 h (λ p. In p ps ⊎ ⊥)
      → (out : Ptr × Heap) × (build_tree sha256 fuel ps h ≡ some out) × Builds fuel h xs out
  unfolding build_tree Tree.root
  build_tree-Builds zero xs ps h pos enough i e k = absurd (omega arith)
  build_tree-Builds (suc fuel) [] ps h pos enough i e k = absurd (omega arith)
  build_tree-Builds (suc fuel) (x ∷ []) [] h pos enough i e k =
      absurd (omega (arith, ap length (e ∙ Size.pad_level-one x)))
  build_tree-Builds (suc fuel) (x ∷ []) (p ∷ q ∷ ps) h pos enough i e k =
      absurd (omega (arith, ap length (e ∙ Size.pad_level-one x)))
  build_tree-Builds (suc fuel) (x ∷ []) (p ∷ []) h pos enough i e k = (
    (p, h),
    refl,
    record {
      extends = Extends-refl h;
      inside = i.0;
      rooted = cc (e ∙ Size.pad_level-one x);
      linked = IsLinked-weaken sha256 h _ _ (only p) k;
    },
  )
  build_tree-Builds (suc fuel) (x ∷ y ∷ xs) [] h pos enough i e k =
      absurd (omega (arith, ap length e, Size.length-pad_level_le (x ∷ y ∷ xs)))
  build_tree-Builds (suc fuel) (x ∷ y ∷ xs) (p ∷ []) h pos enough i e k =
      absurd (omega (arith, ap length e, Size.length-pad_level_le (x ∷ y ∷ xs)))
  build_tree-Builds (suc fuel) (x ∷ y ∷ xs) (p ∷ q ∷ ps) h pos enough i e k =
      let combine = hash_pair sha256 in
      let (less, more) = Size.next_level_size combine (x ∷ y ∷ xs) (omega arith) in
      let parents = pair_up sha256 (p ∷ q ∷ ps) h in
      let level =
        level_up (p ∷ q ∷ ps) h (λ _. ⊥) parents (Tree.pairs combine (hashes h (p ∷ q ∷ ps)))
          (pair_up-Yields sha256 (p ∷ q ∷ ps) h (λ _. ⊥) i k) in
      let (out, found, b) =
        build_tree-Builds fuel (Tree.pairs combine (Tree.pad_level (x ∷ y ∷ xs)))
          (pad_parents parents.0 parents.1).0 (pad_parents parents.0 parents.1).1 more
          (omega (arith, less)) level.inside
          (level.hashed ∙ ap (λ l. Tree.pad_level (Tree.pairs combine l)) e) level.linked in
      (
        out,
        found,
        record {
          extends = Extends-trans level.extends b.extends;
          inside = b.inside;
          rooted = b.rooted;
          linked = b.linked;
        },
      )
