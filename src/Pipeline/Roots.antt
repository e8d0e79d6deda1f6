-- ===== src/Pipeline/Roots.antt =====
-- The Merkle roots that the consumer of server/processor/consumer.go stores, and the evidence packages of
-- server/api/handlers.go.
use facto.Base.{
  Has, All-Has, All-both, ℕ, suc, ◌≡◌, refl, sym, ◌∙◌, ap, subst, List, [], ◌∷◌, map, Option, some,
  All, All-map_imp, true,
}
use facto.Go.Text.{Bytes}
use facto.Go.Sha.{Digest}
use facto.Go.Library.{Codec}
use facto.Processor.Event.{FactoEvent}
use facto.Processor.Merkle
use facto.Processor.Storage.{SessionRow}
use facto.Processor.Storage.Batch.{Database, MerkleRow}
use facto.Processor.Consumer.{Input}
use facto.Processor.Consumer.Roots.{IsRootOf, merkle_roots-IsRootOf}
use facto.Processor.Fetching.{System, Reach}
use facto.Processor.Fetching.Refine.{Reach-select_loop}
use facto.Api.Event.{EventResponse}
use facto.Api.Storage.{Rows, ok, get_session_events}
use facto.Api.Handlers.{success, bound}
use facto.Api.Merkle.{MerkleTree, build_merkle_tree}
use facto.Api.Merkle.Correct.{to_processor, package_root-eq-processor_root}
use facto.Api.Evidence.{
  MerkleProof, EvidencePackageResponse, proofs_from, package_of, package_page,
  handle_evidence_package,
}
use facto.Api.Evidence.Proofs.{hashes_of, IsAccepted, evidence_package-IsComplete}

proofs_from-root :
    (tree : MerkleTree) (i : ℕ) (es : List EventResponse)
    → All (λ p. p.root ≡ tree.root) (proofs_from tree i es)
unfolding proofs_from
proofs_from-root tree i [] = tt
proofs_from-root tree i (e ∷ es) = (refl, proofs_from-root tree (suc i) es)

module _ (sha256 : Digest) where
  -- The proof is one for the root `root`, which VerifyProof of the processor accepts.
  abbrev pub ProvesIn : Bytes → MerkleProof → Type 0
  ProvesIn root p =
      (p.root ≡ root)
      × (Merkle.verify_proof sha256 p.event_hash (map to_processor p.proof) root ≡ true)

  -- The row's root is that of the tree of a package with the same hashes.
  row_root :
      (row : MerkleRow) (x y : Bytes) (xs : List Bytes)
      → IsRootOf sha256 row
      → row.event_hashes ≡ x ∷ y ∷ xs
      → (t : MerkleTree) × (build_merkle_tree sha256 (x ∷ y ∷ xs) ≡ some t)
        × (t.root ≡ row.root_hash)
  row_root row x y xs h same =
      let (t, p, heap, made, built, root) = package_root-eq-processor_root sha256 x y xs in
      let again : Merkle.build_merkle_tree sha256 (x ∷ y ∷ xs) ≡ some (h.tree, h.heap) =
        ap (Merkle.build_merkle_tree sha256) (sym same) ∙ h.built in
      (t, made, cc (root, built, again, h.root_is))

  module _ (codec : Codec) (query : Bytes → ℕ → Rows SessionRow)
      (now exported_at session_id : Bytes) where
    package-ProvesIn :
        (row : MerkleRow) (e f : EventResponse) (es : List EventResponse) (next : Option Bytes)
        → IsRootOf sha256 row
        → get_session_events codec query session_id 10000 [] ≡ ok (e ∷ f ∷ es, next)
        → row.event_hashes ≡ hashes_of (e ∷ f ∷ es)
        → (r : EvidencePackageResponse) × (handle_evidence_package sha256 codec query now
              exported_at
              (bound session_id)
            ≡ success r)
          × All (ProvesIn row.root_hash) r.merkle_proofs
    unfolding handle_evidence_package
    package-ProvesIn row e f es next h found same =
        let (t, made, root) =
          row_root row e.proof.event_hash f.proof.event_hash (hashes_of es) h same in
        let (r, answered, complete) =
          evidence_package-IsComplete sha256 codec query now exported_at session_id e (f ∷ es) next
            found in
        let direct =
          ap (package_page sha256 session_id now exported_at) found
          ∙ ap (package_of sha256 session_id now exported_at (e ∷ f ∷ es)) made in
        let proofs : proofs_from t 0 (e ∷ f ∷ es) ≡ r.merkle_proofs = cc (direct, answered) in
        let roots = subst (All (λ p. p.root ≡ t.root)) proofs (proofs_from-root t 0 (e ∷ f ∷ es)) in
        (
          r,
          answered,
          All-map_imp _ _
              (λ p (at, good). (
                at ∙ root,
                subst
                    (λ x.
                      Merkle.verify_proof sha256 p.event_hash (map to_processor p.proof) x ≡ true)
                    (at ∙ root) good,
              ))
              r.merkle_proofs
              (All-both _ (IsAccepted sha256) r.merkle_proofs roots complete.accepted),
        )

    -- However the goroutines of Start interleave, if all Merkle roots were right before: for a root that is
    -- stored after it, and a session of two events or more whose hashes are those of the root's batch, in
    -- order, GetEvidencePackage answers with proofs for this root, and VerifyProof of the processor
    -- accepts each of them for its event's hash and the stored root.
    pub evidence-ProvesIn :
        (unmarshal : Bytes → Option FactoEvent) (n : ℕ) (db : Database) {taken : List Input}
        {s : System} (row : MerkleRow) (e f : EventResponse) (es : List EventResponse)
        (next : Option Bytes)
        → Reach sha256 codec unmarshal n db taken s
        → All (IsRootOf sha256) db.merkle_roots
        → Has (λ r. r ≡ row) s.consumer.db.merkle_roots
        → get_session_events codec query session_id 10000 [] ≡ ok (e ∷ f ∷ es, next)
        → row.event_hashes ≡ hashes_of (e ∷ f ∷ es)
        → (r : EvidencePackageResponse) × (handle_evidence_package sha256 codec query now
              exported_at
              (bound session_id)
            ≡ success r)
          × All (ProvesIn row.root_hash) r.merkle_proofs
    evidence-ProvesIn unmarshal n db {taken} {s} row e f es next reached before member found same =
        let roots =
          merkle_roots-IsRootOf sha256 codec unmarshal n db taken s.consumer s.main before
            (Reach-select_loop sha256 codec unmarshal n db reached) in
        package-ProvesIn row e f es next
          (All-Has (IsRootOf sha256) row s.consumer.db.merkle_roots roots member) found same
