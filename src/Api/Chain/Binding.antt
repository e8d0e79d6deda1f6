-- ===== src/Api/Chain/Binding.antt =====
-- Chains of events that end in one hash, under VerifyChain of server/api/handlers.go.
use facto.Base.{◌≡◌, List, [], ◌∷◌, map}
use facto.Go.Text.{Bytes}
use facto.Go.Hex
use facto.Processor.Merkle.Binding.{IsDigest}
use facto.Api.Event.{EventResponse}
use facto.Api.Verify.{Verifier, build_canonical_form}

-- The hash that an event after these would have to name.
abbrev pub end_hash : Bytes → List EventResponse → Bytes
end_hash p [] = p
end_hash p (e ∷ es) = end_hash e.proof.event_hash es

module _ (v : Verifier) where
  -- The JSON of an event shows its previous hash, at least where that is a digest in hexadecimal.
  abbrev pub ShowsPrevious : Type 0
  ShowsPrevious =
      (e f : EventResponse)
      → IsDigest e.proof.prev_hash
      → IsDigest f.proof.prev_hash
      → build_canonical_form v e ≡ build_canonical_form v f
      → e.proof.prev_hash ≡ f.proof.prev_hash

  abbrev pub forms : List EventResponse → List Bytes
  forms = map (build_canonical_form v)
