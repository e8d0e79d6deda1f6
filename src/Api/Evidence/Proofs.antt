-- ===== src/Api/Evidence/Proofs.antt =====
-- The proofs in the evidence packages of server/api/handlers.go, under the processor's VerifyProof.
use facto.Base.{
  ℕ, suc, ◌+◌, ◌≡◌, refl, ◌∙◌, ap, subst, arith, List, [], ◌∷◌, Option, some, true, All, map,
  get_elem?,
}
use facto.Base.Int.{pos}
use facto.Go.Text.{Bytes}
use facto.Go.Sha.{Digest}
use facto.Go.Library.{Codec}
use facto.Processor.Merkle
use facto.Processor.Storage.{SessionRow}
use facto.Api.Event.{EventResponse}
use facto.Api.Storage.{Rows, ok, get_session_events}
use facto.Api.Merkle.{MerkleTree, build_merkle_tree, get_proof}
use facto.Api.Merkle.Correct.{to_processor, verify_proof-package_proof}
use facto.Api.Handlers.{success, bound}
use facto.Api.Evidence.{
  MerkleProof, EvidencePackageResponse, proofs_from, package_of, package_page,
  handle_evidence_package,
}

abbrev pub hashes_of : List EventResponse → List Bytes
hashes_of = map (λ e. e.proof.event_hash)

-- The identifier and the hash of each event, and of the event of each proof.
abbrev pub names_of : List EventResponse → List (Bytes × Bytes)
names_of [] = []
names_of (e ∷ es) = (e.facto_id, e.proof.event_hash) ∷ names_of es

abbrev pub proved_names : List MerkleProof → List (Bytes × Bytes)
proved_names [] = []
proved_names (p ∷ ps) = (p.facto_id, p.event_hash) ∷ proved_names ps

module _ (sha256 : Digest) where
  -- VerifyProof of the processor accepts the proof, for the event's hash and the root beside it.
  abbrev pub IsAccepted : MerkleProof → Type 0
  IsAccepted p = Merkle.verify_proof sha256 p.event_hash (map to_processor p.proof) p.root ≡ true

  proofs_from-IsAccepted :
      (tree : MerkleTree) (i : ℕ) (es : List EventResponse)
      → ((j : ℕ) (leaf : Bytes)
          → get_elem? (hashes_of es) j ≡ some leaf
          → Merkle.verify_proof sha256 leaf
              (map to_processor (get_proof tree (pos (i + j))))
              tree.root
            ≡ true)
      → All IsAccepted (proofs_from tree i es)
  unfolding proofs_from
  proofs_from-IsAccepted tree i [] h = tt
  proofs_from-IsAccepted tree i (e ∷ es) h =
      let first : i + 0 ≡ i = omega arith in
      (
        subst
            (λ n.
              Merkle.verify_proof sha256 e.proof.event_hash
                (map to_processor (get_proof tree (pos n))) tree.root
              ≡ true)
            first (h 0 e.proof.event_hash refl),
        proofs_from-IsAccepted tree (suc i) es (λ j leaf f.
            let next : i + suc j ≡ suc i + j = omega arith in
            subst
              (λ n.
                Merkle.verify_proof sha256 leaf (map to_processor (get_proof tree (pos n)))
                  tree.root
                ≡ true)
              next (h (suc j) leaf f)),
      )

  proofs_from-events :
      (tree : MerkleTree) (i : ℕ) (es : List EventResponse)
      → proved_names (proofs_from tree i es) ≡ names_of es
  unfolding proofs_from
  proofs_from-events tree i [] = refl
  proofs_from-events tree i (e ∷ es) =
      ap (λ l. (e.facto_id, e.proof.event_hash) ∷ l) (proofs_from-events tree (suc i) es)

  -- What a package gives for the events of a session.
  pub record IsComplete (events : List EventResponse) (r : EvidencePackageResponse) : Type 0 where
    pub events_are : r.events ≡ events
    pub one_each : proved_names r.merkle_proofs ≡ names_of events
    pub accepted : All IsAccepted r.merkle_proofs

  package_of-IsComplete :
      (session_id now exported_at : Bytes) (e : EventResponse) (es : List EventResponse)
      → (r : EvidencePackageResponse) × (package_of sha256 session_id now exported_at
            (e ∷ es)
            (build_merkle_tree sha256 (hashes_of (e ∷ es)))
          ≡ success r)
        × IsComplete (e ∷ es) r
  package_of-IsComplete session_id now exported_at e es =
      let x = e.proof.event_hash in
      let (t, built, _) = verify_proof-package_proof sha256 x (hashes_of es) 0 x refl in
      let accepts : (j : ℕ) (leaf : Bytes)
          → get_elem? (hashes_of (e ∷ es)) j ≡ some leaf
          → Merkle.verify_proof sha256 leaf (map to_processor (get_proof t (pos j))) t.root ≡ true =
        λ j leaf f.
          let (s, again, good) = verify_proof-package_proof sha256 x (hashes_of es) j leaf f in
          let same : s ≡ t = cc (again, built) in
          subst
            (λ u.
              Merkle.verify_proof sha256 leaf (map to_processor (get_proof u (pos j))) u.root
              ≡ true)
            same good in
      (
        _,
        ap (package_of sha256 session_id now exported_at (e ∷ es)) built,
        record {
          events_are = refl;
          one_each = proofs_from-events t 0 (e ∷ es);
          accepted = proofs_from-IsAccepted t 0 (e ∷ es) (λ j leaf f.
              let start : j ≡ 0 + j = omega arith in
              subst
                (λ n.
                  Merkle.verify_proof sha256 leaf (map to_processor (get_proof t (pos n))) t.root
                  ≡ true)
                start (accepts j leaf f));
        },
      )

  pub evidence_package-IsComplete :
      (codec : Codec) (query : Bytes → ℕ → Rows SessionRow) (now exported_at session_id : Bytes)
      (e : EventResponse) (es : List EventResponse) (next : Option Bytes)
      → get_session_events codec query session_id 10000 [] ≡ ok (e ∷ es, next)
      → (r : EvidencePackageResponse) × (handle_evidence_package sha256 codec query now exported_at
            (bound session_id)
          ≡ success r)
        × IsComplete (e ∷ es) r
  unfolding handle_evidence_package
  evidence_package-IsComplete codec query now exported_at session_id e es next f =
      let (r, made, complete) = package_of-IsComplete session_id now exported_at e es in
      (r, ap (package_page sha256 session_id now exported_at) f ∙ made, complete)
