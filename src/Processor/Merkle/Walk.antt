-- ===== src/Processor/Merkle/Walk.antt =====
-- GetProof of server/processor/merkle.go: the walk from a node to the root, and what VerifyProof makes
-- of the elements that it collects.
use facto.Base.{
  ℕ, zero, suc, ◌≤◌, ◌<◌, ◌≡◌, refl, inl, inr, none, some, List, [], ◌∷◌, arith, ◌∙◌, sym, ap,
  Bool-cases, ◌==◌, true, false, ◌-◌, eq_bytes, ap₂, ==_iff, ==_ne,
}
use facto.Go.Text.{codes}
use facto.Go.Sha.{Digest}
use facto.Processor.Merkle.{
  Ptr, Heap, ProofElement, hash_pair, proof_step, climb, fold_element, fold_proof, append_to,
}
use facto.Processor.Merkle.Links.{IsLinked, IsChild}

right-ne-left : eq_bytes (codes "right") (codes "left") ≡ false
unfolding eq_bytes
right-ne-left = refl

left-eq-left : eq_bytes (codes "left") (codes "left") ≡ true
unfolding eq_bytes
left-eq-left = refl

module _ (sha256 : Digest) where
  -- The element for one round takes the hash of a node to the hash of its parent.
  record Rises (h : Heap) (p q : Ptr) (e : ProofElement) : Type 0 where
    stepped : proof_step h p q ≡ e ∷ []
    folded : fold_element sha256 (h.cell p).hash e ≡ (h.cell q).hash

  module _ (h : Heap) (p q l r : Ptr) (c : IsChild sha256 h p q l r) where
    from_left : (l == p) ≡ true → (e : ProofElement) × Rises h p q e
    unfolding proof_step fold_element
    from_left t = (
      record { hash = (h.cell r).hash; position = codes "right" },
      record {
        stepped = rw (c.left_is, t, c.right_is);
        folded = rw right-ne-left (
            ap (λ x. hash_pair sha256 (h.cell x).hash (h.cell r).hash) (sym ((==_iff l p).0 t))
            ∙ sym c.combined);
      },
    )

    from_right : (l == p) ≡ false → r ≡ p → (e : ProofElement) × Rises h p q e
    unfolding proof_step fold_element
    from_right t s = (
      record { hash = (h.cell l).hash; position = codes "left" },
      record {
        stepped = rw (c.left_is, t);
        folded =
            rw left-eq-left
              (ap (λ x. hash_pair sha256 (h.cell l).hash (h.cell x).hash) (sym s) ∙ sym c.combined);
      },
    )

    proof_step-Rises : (e : ProofElement) × Rises h p q e
    proof_step-Rises = elim (Bool-cases (l == p)) [
      | inl t ↦ from_left t
      | inr t ↦ from_right t (elim c.side [ inl s ↦ absurd (==_ne l p t s) | inr s ↦ s ])
    ]

  climb_to :
      (h : Heap) (fuel : ℕ) (p q : Ptr) (e : ProofElement) (es : List ProofElement)
      → (h.cell p).parent ≡ some q
      → proof_step h p q ≡ e ∷ []
      → climb fuel h q ≡ some es
      → climb (suc fuel) h p ≡ some (e ∷ es)
  unfolding climb
  climb_to h fuel p q e es u s c = rw (u, climb) (ap₂ append_to s c)

  climb_end :
      (h : Heap) (fuel : ℕ) (p : Ptr) → (h.cell p).parent ≡ none → climb (suc fuel) h p ≡ some []
  unfolding climb
  climb_end h fuel p e = rw (e, climb)

  -- The walk ends at the root, and folding what it collects gives the hash of the root.
  pub climb-lem :
      (h : Heap) (top : Ptr)
      → IsLinked sha256 h (λ p. p ≡ top)
      → (fuel : ℕ) (p : Ptr) → p < h.next
      → h.next - p ≤ fuel
      → (es : List ProofElement) × (climb (suc fuel) h p ≡ some es)
        × (fold_proof sha256 (h.cell p).hash es ≡ (h.cell top).hash)
  unfolding fold_proof
  climb-lem h top k zero p x f = absurd (omega arith)
  climb-lem h top k (suc fuel) p x f = elim (k p x) [
    | inl (e, t) ↦ ([], climb_end h (suc fuel) p e, ap (λ q. (h.cell q).hash) t)
    | inr (q, l, r, c) ↦
        let (e, s) = proof_step-Rises h p q l r c in
        let (es, found, folded) = climb-lem h top k fuel q c.there (omega (arith, c.older)) in
        (e ∷ es, climb_to h (suc fuel) p q e es c.up s.stepped found, rw s.folded folded)
  ]
