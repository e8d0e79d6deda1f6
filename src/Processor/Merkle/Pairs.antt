-- ===== src/Processor/Merkle/Pairs.antt =====
-- The levels that buildTree of server/processor/merkle.go makes: pair_up and pad_parents keep the heap
-- linked and give the hashes of the level above.
use facto.Base.{◌<◌, ◌≡◌, refl, ◌⊎◌, inl, inr, List, [], ◌∷◌, arith, ◌∙◌, ap₂}
use facto.Go.Text.{Bytes}
use facto.Go.Sha.{Digest}
use facto.Tree
use facto.Processor.Merkle.{Ptr, Heap, hash_pair, join, pair_up}
use facto.Processor.Merkle.Nodes.{
  In, AreIn, hashes, Extends, Extends-refl, Extends-trans, Extends-AreIn, hashes-Extends,
  join-Extends, join_next, join_parent,
}
use facto.Processor.Merkle.Links.{IsLinked, IsLinked-weaken, join-IsLinked}

module _ (sha256 : Digest) where
  -- What a loop over nodes of `h` yields: nodes `ps` of `h'`, which wait beside those of `K`, with
  -- the hashes `xs`.
  pub record Yields {κ} (h : Heap) (K : Ptr → Type κ) (xs : List Bytes) (out : List Ptr × Heap)
      : Type κ where
    pub extends : Extends h out.1
    pub inside : AreIn out.1 out.0
    pub hashed : hashes out.1 out.0 ≡ xs
    pub linked : IsLinked sha256 out.1 (λ p. In p out.0 ⊎ K p)

  pub regroup {κ} :
      (q : Ptr) (ps : List Ptr) (K : Ptr → Type κ) (p : Ptr)
      → In p ps ⊎ (K p ⊎ (p ≡ q))
      → In p (q ∷ ps) ⊎ K p
  regroup q ps K p (inl a) = inl (inr a)
  regroup q ps K p (inr (inl a)) = inr a
  regroup q ps K p (inr (inr a)) = inl (inl a)

  -- A pair and then the rest of the level.
  join_then {κ} :
      (l r : Ptr) (h : Heap) (K : Ptr → Type κ) (ys : List Bytes) (out : List Ptr × Heap)
      → l < h.next
      → r < h.next
      → Yields (join sha256 l r h).1 (λ p. K p ⊎ (p ≡ h.next)) ys out
      → Yields h K (hash_pair sha256 (h.cell l).hash (h.cell r).hash ∷ ys) (h.next ∷ out.0, out.1)
  join_then l r h K ys out hl hr y =
      let (n, _) = join_next sha256 l r h hl hr in
      let fresh : h.next < (join sha256 l r h).1.next = omega (arith, n) in
      record {
        extends = Extends-trans (join-Extends sha256 l r h hl hr) y.extends;
        inside = (omega (arith, n, y.extends.grows), y.inside);
        hashed =
            ap₂ ◌∷◌ (y.extends.keeps h.next fresh ∙ (join_parent sha256 l r h hl hr).3) y.hashed;
        linked = IsLinked-weaken sha256 out.1 _ _ (regroup h.next out.0 K) y.linked;
      }

  nothing_more {κ} :
      (h : Heap) (K : Ptr → Type κ) → IsLinked sha256 h (λ p. In p [] ⊎ K p) → Yields h K [] ([], h)
  nothing_more h K k = record { extends = Extends-refl h; inside = tt; hashed = refl; linked = k }

  split_pair {κ} :
      (l r : Ptr) (ps : List Ptr) (K : Ptr → Type κ) (p : Ptr)
      → In p (l ∷ r ∷ ps) ⊎ K p
      → (p ≡ l) ⊎ (p ≡ r) ⊎ (In p ps ⊎ K p)
  split_pair l r ps K p (inl (inl a)) = inl a
  split_pair l r ps K p (inl (inr (inl a))) = inr (inl a)
  split_pair l r ps K p (inl (inr (inr a))) = inr (inr (inl a))
  split_pair l r ps K p (inr a) = inr (inr (inr a))

  joined_links {κ} :
      (l r : Ptr) (ps : List Ptr) (h : Heap) (K : Ptr → Type κ)
      → l < h.next
      → r < h.next
      → IsLinked sha256 h (λ p. In p (l ∷ r ∷ ps) ⊎ K p)
      → IsLinked sha256 (join sha256 l r h).1 (λ p. In p ps ⊎ (K p ⊎ (p ≡ h.next)))
  joined_links l r ps h K hl hr k =
      IsLinked-weaken sha256 (join sha256 l r h).1 _ _ regroup_right
        (join-IsLinked sha256 l r h hl hr _ (IsLinked-weaken sha256 h _ _ (split_pair l r ps K) k))
    where
      regroup_right : (p : Ptr) → (In p ps ⊎ K p) ⊎ (p ≡ h.next) → In p ps ⊎ (K p ⊎ (p ≡ h.next))
      regroup_right p (inl (inl a)) = inl a
      regroup_right p (inl (inr a)) = inr (inl a)
      regroup_right p (inr a) = inr (inr a)

  twice {κ} : (l : Ptr) (K : Ptr → Type κ) (p : Ptr) → In p (l ∷ []) ⊎ K p → In p (l ∷ l ∷ []) ⊎ K p
  twice l K p (inl (inl a)) = inl (inl a)
  twice l K p (inl (inr a)) = absurd a
  twice l K p (inr a) = inr a

  joined_hashes :
      (l r : Ptr) (ps : List Ptr) (h : Heap)
      → l < h.next
      → r < h.next
      → AreIn h ps
      → hashes (join sha256 l r h).1 ps ≡ hashes h ps
  joined_hashes l r ps h hl hr i = hashes-Extends ps (join-Extends sha256 l r h hl hr) i

  -- pair_up makes the level above: each node gets a parent, and the parents wait.
  pub pair_up-Yields {κ} :
      (ps : List Ptr) (h : Heap) (K : Ptr → Type κ)
      → AreIn h ps
      → IsLinked sha256 h (λ p. In p ps ⊎ K p)
      → Yields h K (Tree.pairs (hash_pair sha256) (hashes h ps)) (pair_up sha256 ps h)
  unfolding pair_up Tree.pairs
  pair_up-Yields [] h K i k = nothing_more h K k
  pair_up-Yields (l ∷ []) h K i k = rw (join_next sha256 l l h i.0 i.0).1 (
      join_then l l h K [] ([], (join sha256 l l h).1) i.0 i.0
        (nothing_more (join sha256 l l h).1 _
          (joined_links l l [] h K i.0 i.0 (IsLinked-weaken sha256 h _ _ (twice l K) k))))
  pair_up-Yields (l ∷ r ∷ ps) h K i k =
      let h' = (join sha256 l r h).1 in
      let below : AreIn h' ps = Extends-AreIn ps (join-Extends sha256 l r h i.0 i.1.0) i.1.1 in
      let rest =
        pair_up-Yields ps h' (λ p. K p ⊎ (p ≡ h.next)) below
          (joined_links l r ps h K i.0 i.1.0 k) in
      rw ((join_next sha256 l r h i.0 i.1.0).1, ← joined_hashes l r ps h i.0 i.1.0 i.1.1)
        (join_then l r h K _ _ i.0 i.1.0 rest)
