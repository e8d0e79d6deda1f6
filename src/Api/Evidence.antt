-- ===== src/Api/Evidence.antt =====
-- server/api/handlers.go: GetEvidencePackage, the events of a session with a Merkle proof for each. The
-- constant text with the verification's instructions is left out.
pub mod Proofs
use facto.Base.{ℕ, suc, List, [], ◌∷◌, ◌++◌, Option, none, some, map, take}
use facto.Base.Int.{pos}
use facto.Go.Text.{Bytes, codes}
use facto.Go.Hex
use facto.Go.Sha.{Digest}
use facto.Go.Library.{Codec}
use facto.Processor.Storage.{SessionRow}
use facto.Api.Event.{EventResponse}
use facto.Api.Storage.{Rows, Result, ok, err, Page, get_session_events}
use facto.Api.Merkle.{MerkleTree, ProofElement, build_merkle_tree, get_proof}
use facto.Api.Handlers.{Response, failure, success, panicked, Bound, bound, refused}

pub record MerkleProof : Type 0 where
  pub facto_id : Bytes
  pub event_hash : Bytes
  pub proof : List ProofElement
  pub root : Bytes

pub record EvidencePackageResponse : Type 0 where
  pub package_id : Bytes
  pub session_id : Bytes
  pub events : List EventResponse
  pub merkle_proofs : List MerkleProof
  pub exported_at : Bytes

-- The loop over the events from number `i` on.
unfoldable pub proofs_from : MerkleTree → ℕ → List EventResponse → List MerkleProof
proofs_from tree i [] = []
proofs_from tree i (e ∷ es) =
    record {
      facto_id = e.facto_id;
      event_hash = e.proof.event_hash;
      proof = get_proof tree (pos i);
      root = tree.root;
    }
    ∷ proofs_from tree (suc i) es

module _ (sha256 : Digest) where
  -- The texts of the two readings of the clock: for the identifier, and for the export's time.
  abbrev pub package_of :
      Bytes
      → Bytes
      → Bytes
      → List EventResponse
      → Option MerkleTree
      → Response EvidencePackageResponse
  package_of session_id now exported_at events none = panicked
  package_of session_id now exported_at events (some tree) = success (record {
    package_id = codes "ev-" ++ Hex.encode (take 8 (sha256.sum (session_id ++ now)));
    session_id = session_id;
    events = events;
    merkle_proofs = proofs_from tree 0 events;
    exported_at = exported_at;
  })

  abbrev pub package_page : Bytes → Bytes → Bytes → Result Page → Response EvidencePackageResponse
  package_page session_id now exported_at (err e) = failure 500 (codes "failed to fetch events")
  package_page session_id now exported_at (ok ([], next)) =
      failure 404 (codes "no events found for session")
  package_page session_id now exported_at (ok (e ∷ es, next)) =
      package_of session_id now exported_at (e ∷ es)
        (build_merkle_tree sha256 (map (λ x. x.proof.event_hash) (e ∷ es)))

  -- GetEvidencePackage, of the session that the request names.
  unfoldable pub handle_evidence_package :
      Codec
      → (Bytes → ℕ → Rows SessionRow)
      → Bytes
      → Bytes
      → Bound Bytes
      → Response EvidencePackageResponse
  unfolding proofs_from
  handle_evidence_package codec query now exported_at (refused text) = failure 400 text
  handle_evidence_package codec query now exported_at (bound session_id) =
      package_page session_id now exported_at (get_session_events codec query session_id 10000 [])
