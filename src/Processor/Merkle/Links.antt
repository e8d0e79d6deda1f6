-- ===== src/Processor/Merkle/Links.antt =====
-- The invariant of the heap in which server/processor/merkle.go builds a tree: a node is pending, or
-- its parent has it for a child and combines its hash.
use facto.Base.{◌<◌, ◌≡◌, ◌≢◌, ◌⊎◌, inl, inr, none, some, arith, ◌∙◌, sym, ap₂, ℕ_discrete}
use facto.Go.Sha.{Digest}
use facto.Processor.Merkle.{Ptr, MerkleNode, Heap, alloc, hash_pair, join}
use facto.Processor.Merkle.Nodes.{join-Extends, join_next, join_parent, join_children, join_links}

module _ (sha256 : Digest) where
  -- `q` is the parent of `p`, with the children `l` and `r`.
  pub record IsChild (h : Heap) (p q l r : Ptr) : Type 0 where
    pub up : (h.cell p).parent ≡ some q
    pub older : p < q
    pub there : q < h.next
    pub left_in : l < h.next
    pub right_in : r < h.next
    pub left_is : (h.cell q).left ≡ some l
    pub right_is : (h.cell q).right ≡ some r
    pub side : (l ≡ p) ⊎ (r ≡ p)
    pub combined : (h.cell q).hash ≡ hash_pair sha256 (h.cell l).hash (h.cell r).hash

  abbrev pub HasParent : Heap → Ptr → Type 0
  HasParent h p = (q : Ptr) × (l : Ptr) × (r : Ptr) × IsChild h p q l r

  -- Every node waits for a parent, and is one of `Pending`, or has one.
  abbrev pub IsLinked {κ} : Heap → (Ptr → Type κ) → Type κ
  IsLinked h Pending =
      (p : Ptr) → p < h.next → (((h.cell p).parent ≡ none) × Pending p) ⊎ HasParent h p

  pub IsLinked-weaken {κ μ} :
      (h : Heap) (P : Ptr → Type κ) (Q : Ptr → Type μ)
      → ((p : Ptr) → P p → Q p)
      → IsLinked h P
      → IsLinked h Q
  IsLinked-weaken h P Q f i p x = elim (i p x) [ inl w ↦ inl (w.0, f p w.1) | inr c ↦ inr c ]

  alloc-IsChild :
      (n : MerkleNode) (h : Heap) (p q l r : Ptr)
      → p < h.next
      → IsChild h p q l r
      → IsChild (alloc n h).1 p q l r
  unfolding alloc
  alloc-IsChild n h p q l r x c = record {
    up = ground arith;
    older = c.older;
    there = omega arith;
    left_in = omega arith;
    right_in = omega arith;
    left_is = ground arith;
    right_is = ground arith;
    side = c.side;
    combined = ground arith;
  }

  -- A fresh node without links is one more that waits.
  pub alloc-IsLinked {κ} :
      (n : MerkleNode) (h : Heap) (P : Ptr → Type κ)
      → n.parent ≡ none
      → IsLinked h P
      → IsLinked (alloc n h).1 (λ p. P p ⊎ (p ≡ h.next))
  unfolding alloc
  alloc-IsLinked n h P e i p x = elim (ℕ_discrete p h.next) [
    | yes q ↦ inl (ground arith, inr q)
    | no q ↦ elim (i p (omega arith)) [
      | inl (a, b) ↦ inl (ground arith, inl b)
      | inr (a, b, c, k) ↦ inr (a, b, c, alloc-IsChild n h p a b c (omega arith) k)
    ]
  ]

  module _ (l r : Ptr) (h : Heap) (hl : l < h.next) (hr : r < h.next) where
    joined : Heap
    joined = (join sha256 l r h).1

    join-IsChild_new :
        (p : Ptr)
        → p < h.next
        → (joined.cell p).parent ≡ some h.next
        → (l ≡ p) ⊎ (r ≡ p)
        → IsChild joined p h.next l r
    unfolding joined
    join-IsChild_new p x e s =
        let (le, re, pe, he) = join_parent sha256 l r h hl hr in
        let k = join-Extends sha256 l r h hl hr in
        let (n, _) = join_next sha256 l r h hl hr in
        record {
          up = e;
          older = x;
          there = omega (arith, n);
          left_in = omega (arith, n);
          right_in = omega (arith, n);
          left_is = le;
          right_is = re;
          side = s;
          combined = he ∙ ap₂ (hash_pair sha256) (sym (k.keeps l hl)) (sym (k.keeps r hr));
        }

    join-IsChild_old :
        (p q a b : Ptr)
        → p < h.next
        → (joined.cell p).parent ≡ (h.cell p).parent
        → IsChild h p q a b
        → IsChild joined p q a b
    unfolding joined
    join-IsChild_old p q a b x e c =
        let (le, re) = join_children sha256 l r h hl hr q c.there in
        let k = join-Extends sha256 l r h hl hr in
        let (n, _) = join_next sha256 l r h hl hr in
        record {
          up = e ∙ c.up;
          older = c.older;
          there = omega (arith, n, c.there);
          left_in = omega (arith, n, c.left_in);
          right_in = omega (arith, n, c.right_in);
          left_is = le ∙ c.left_is;
          right_is = re ∙ c.right_is;
          side = c.side;
          combined =
              k.keeps q c.there
              ∙ c.combined
              ∙ ap₂ (hash_pair sha256) (sym (k.keeps a c.left_in)) (sym (k.keeps b c.right_in));
        }

    join_old :
        (p : Ptr)
        → p < h.next
        → (joined.cell p).parent ≡ (h.cell p).parent
        → HasParent h p
        → HasParent joined p
    join_old p x e (q, a, b, c) = (q, a, b, join-IsChild_old p q a b x e c)

    join_kept {κ} :
        (K : Ptr → Type κ) (p : Ptr)
        → p < h.next
        → p ≢ l
        → p ≢ r
        → (joined.cell p).parent ≡ (h.cell p).parent
        → (((h.cell p).parent ≡ none) × ((p ≡ l) ⊎ (p ≡ r) ⊎ K p)) ⊎ HasParent h p
        → (((joined.cell p).parent ≡ none) × (K p ⊎ (p ≡ h.next))) ⊎ HasParent joined p
    join_kept K p x nl nr e (inl (a, inl b)) = absurd (nl b)
    join_kept K p x nl nr e (inl (a, inr (inl b))) = absurd (nr b)
    join_kept K p x nl nr e (inl (a, inr (inr b))) = inl (e ∙ a, inl b)
    join_kept K p x nl nr e (inr c) = inr (join_old p x e c)

    -- After a join the two children have a parent, and the new node waits.
    pub join-IsLinked {κ} :
        (K : Ptr → Type κ)
        → IsLinked h (λ p. (p ≡ l) ⊎ (p ≡ r) ⊎ K p)
        → IsLinked (join sha256 l r h).1 (λ p. K p ⊎ (p ≡ h.next))
    unfolding joined
    join-IsLinked K i p x = elim (ℕ_discrete p h.next) [
      | yes q ↦ inl (rw q (join_parent sha256 l r h hl hr).2, inr q)
      | no q ↦
          let y : p < h.next = omega (arith, (join_next sha256 l r h hl hr).0) in
          elim (join_links sha256 l r h hl hr p y) [
            | inl (a, e) ↦ inr (h.next, l, r, join-IsChild_new p y e (inl (sym a)))
            | inr (inl (a, e)) ↦ inr (h.next, l, r, join-IsChild_new p y e (inr (sym a)))
            | inr (inr (a, b, e)) ↦ join_kept K p y a b e (i p y)
          ]
    ]
