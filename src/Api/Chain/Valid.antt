-- ===== src/Api/Chain/Valid.antt =====
-- VerifyChain of server/api/handlers.go: what a valid response means, and when there is none.
use mathlib.Core.List.{Perm}
use facto.Base.{
  ℕ, ◌≡◌, refl, ◌∙◌, sym, ◌↔◌, List, [], ◌∷◌, Option, none, some, Bool, true, false, ◌&&◌, All,
  length,
}
use facto.Go.Text.{Bytes, codes}
use facto.Go.Sha.{Digest}
use facto.Go.Sort.{Sorter, IsSortedBy}
use facto.Go.Library.{Codec}
use facto.Processor.Storage.{SessionRow}
use facto.Api.Event.{EventResponse}
use facto.Api.Storage.{Rows, Result, ok, err, Page, get_session_events}
use facto.Api.Verify.{Verifier, verify_hash, verify_signature}
use facto.Api.Handlers.{success, panicked, bound}
use facto.Api.Chain.{
  ChainVerifyResponse, Verdict, check_each, check_links, zero_hash, respond, verify_events,
  verify_page, handle_verify_chain,
}
use facto.Api.Chain.Links.{
  IsLinked, HasShortBreak, check_each-verdict, check_links-verdict, check_links-panics,
}

and_true : (a b : Bool) → (a && b) ≡ true ↔ (a ≡ true) × (b ≡ true)
and_true true b = ((λ h. (refl, h)), λ h. h.1)
and_true false b = ((λ h. absurd (cc h)), λ h. absurd (cc h.0))

module _ (v : Verifier) where
  -- Every event passes, and each is linked to the one before it.
  pub record IsChain (es : List EventResponse) : Type 0 where
    pub hashes : All (λ e. verify_hash v e ≡ true) es
    pub signatures : All (λ e. verify_signature v e ≡ true) es
    pub linked : IsLinked zero_hash es

  module _ (sha256 : Digest) where
    respond-valid :
        (es : List EventResponse) (a b : Bool) (o : Option Verdict) (r : ChainVerifyResponse)
        → respond sha256 v es a b o ≡ success r
        → (l : Verdict) × (o ≡ some l) × (r.valid ≡ (a && b && l.0)) × (r.event_count ≡ length es)
    respond-valid es a b none r h = absurd (cc h)
    respond-valid es a b (some l) r h = (l, refl, cc h, cc h)

    -- The verdict of the three loops.
    pub verify_events-valid :
        (es : List EventResponse) (r : ChainVerifyResponse)
        → verify_events sha256 v es ≡ success r
        → ((r.valid ≡ true) ↔ IsChain es) × (r.event_count ≡ length es)
    unfolding verify_events
    verify_events-valid es r h =
        let hash_text = codes "Hash invalid for event: " in
        let signature_text = codes "Signature invalid for event: " in
        let hashes = check_each (verify_hash v) hash_text es (true, []) in
        let signatures = check_each (verify_signature v) signature_text es (true, hashes.1) in
        let (l, ended, is, count) = respond-valid es hashes.0 signatures.0 _ r h in
        let x = check_each-verdict (verify_hash v) hash_text es (true, []) in
        let y = check_each-verdict (verify_signature v) signature_text es (true, hashes.1) in
        let z = check_links-verdict es zero_hash (true, signatures.1) l ended in
        (
          (
            (λ t.
                let (a, b) = (and_true (hashes.0 && signatures.0) l.0).0 (sym is ∙ t) in
                let (c, d) = (and_true hashes.0 signatures.0).0 a in
                record { hashes = (x.0 c).1; signatures = (y.0 d).1; linked = (z.0 b).1 }),
            λ k.
                is
                ∙ (and_true (hashes.0 && signatures.0) l.0).1 (
                  (and_true hashes.0 signatures.0).1
                      (x.1 (refl, k.hashes), y.1 (refl, k.signatures)),
                  z.1 (refl, k.linked),
                ),
          ),
          count,
        )

    respond-panicked :
        (es : List EventResponse) (a b : Bool) (o : Option Verdict)
        → (respond sha256 v es a b o ≡ panicked) ↔ (o ≡ none)
    respond-panicked es a b none = ((λ h. refl), λ h. refl)
    respond-panicked es a b (some l) = ((λ h. absurd (cc h)), λ h. absurd (cc h))

    verify_events-panicked :
        (es : List EventResponse)
        → (verify_events sha256 v es ≡ panicked) ↔ HasShortBreak zero_hash es
    unfolding verify_events
    verify_events-panicked es =
        let hashes = check_each (verify_hash v) (codes "Hash invalid for event: ") es (true, []) in
        let signatures =
          check_each (verify_signature v) (codes "Signature invalid for event: ") es
            (true, hashes.1) in
        let start : Verdict = (true, signatures.1) in
        let p = respond-panicked es hashes.0 signatures.0 (check_links es zero_hash start) in
        let q = check_links-panics es zero_hash start in ((λ h. q.0 (p.0 h)), λ h. p.1 (q.1 h))

    module _ (sorter : Sorter (λ (e : EventResponse). e.completed_at)) (codec : Codec)
        (query : Bytes → ℕ → Rows SessionRow) (session_id : Bytes) where
      -- What a response of VerifyChain is about: the events of the session, in the order of completion.
      pub record Verified (r : ChainVerifyResponse) : Type 0 where
        pub events : List EventResponse
        pub next : Option Bytes
        pub found : get_session_events codec query session_id 10000 [] ≡ ok (events, next)
        pub ordered : List EventResponse
        pub permuted : Perm ordered events
        pub sorted : IsSortedBy (λ e. e.completed_at) ordered
        pub valid_iff : (r.valid ≡ true) ↔ IsChain ordered
        pub count : r.event_count ≡ length ordered

      page-Verified :
          (o : Result Page) (r : ChainVerifyResponse)
          → get_session_events codec query session_id 10000 [] ≡ o
          → verify_page sha256 v sorter o ≡ success r
          → Verified r
      page-Verified (err e) r f h = absurd (cc h)
      page-Verified (ok ([], next)) r f h = absurd (cc h)
      page-Verified (ok (e ∷ es, next)) r f h =
          let (iff, count) = verify_events-valid (sorter.sort (e ∷ es)) r h in
          record {
            events = e ∷ es;
            next = next;
            found = f;
            ordered = sorter.sort (e ∷ es);
            permuted = sorter.sort-perm (e ∷ es);
            sorted = sorter.sort-IsSortedBy (e ∷ es);
            valid_iff = iff;
            count = count;
          }

      pub verify_chain-Verified :
          (r : ChainVerifyResponse)
          → handle_verify_chain sha256 v sorter codec query (bound session_id) ≡ success r
          → Verified r
      unfolding handle_verify_chain
      verify_chain-Verified r h = page-Verified _ r refl h

      pub verify_chain-panicked :
          (e : EventResponse) (es : List EventResponse) (next : Option Bytes)
          → get_session_events codec query session_id 10000 [] ≡ ok (e ∷ es, next)
          → (handle_verify_chain sha256 v sorter codec query (bound session_id) ≡ panicked)
            ↔ HasShortBreak zero_hash (sorter.sort (e ∷ es))
      unfolding handle_verify_chain
      verify_chain-panicked e es next f = rw f (verify_events-panicked (sorter.sort (e ∷ es)))
