-- ===== src/Api/Chain.antt =====
-- server/api/handlers.go: VerifyChain, which checks all events of a session and the links between them.
pub mod Links
pub mod Valid
pub mod Binding
use facto.Base.{
  ℕ, List, [], ◌∷◌, ◌++◌, Option, none, some, Bool, true, false, ◌&&◌, leb, if◌then◌else◌, length,
  take, replicate, eq_bytes, map, concat, last_or,
}
use facto.Go.Text.{Bytes, codes}
use facto.Go.Hex
use facto.Go.Sha.{Digest}
use facto.Go.Sort.{Sorter}
use facto.Go.Library.{Codec}
use facto.Processor.Storage.{SessionRow}
use facto.Api.Event.{EventResponse}
use facto.Api.Storage.{Rows, Result, ok, err, Page, get_session_events}
use facto.Api.Verify.{Verifier, verify_hash, verify_signature}
use facto.Api.Handlers.{Response, failure, success, panicked, Bound, bound, refused}

pub record ChainVerifyChecks : Type 0 where
  pub all_hashes_valid : Bool
  pub all_signatures_valid : Bool
  pub chain_integrity_valid : Bool

pub record ChainVerifyResponse : Type 0 where
  pub valid : Bool
  pub event_count : ℕ
  pub checks : ChainVerifyChecks
  pub first_event : Bytes
  pub last_event : Bytes
  pub session_hash : Bytes
  pub errors : List Bytes

-- The `prev_hash` that the first event must have.
abbrev pub zero_hash : Bytes
zero_hash = replicate 64 48

-- The verdict of a loop and the errors so far.
abbrev pub Verdict : Type 0
Verdict = Bool × List Bytes

-- The loop over the hashes, or over the signatures: a failure clears the verdict and adds an error.
unfoldable pub check_each : (EventResponse → Bool) → Bytes → List EventResponse → Verdict → Verdict
check_each test text [] r = r
check_each test text (e ∷ es) r =
    check_each test text es (if test e then r else (false, r.1 ++ (text ++ e.facto_id) ∷ []))

-- `s[:16]`, which panics on a shorter string.
unfoldable pub prefix : Bytes → Option Bytes
prefix s = if leb 16 (length s) then some (take 16 s) else none

abbrev pub broken_text : Bytes → Option Bytes → Option Bytes → Option Bytes
broken_text facto_id none got = none
broken_text facto_id (some expected) none = none
broken_text facto_id (some expected) (some got) = some (
    codes "Chain broken at event: "
    ++ facto_id
    ++ codes " (expected prev_hash: "
    ++ expected
    ++ codes "..., got: "
    ++ got
    ++ codes "...)")

abbrev pub add_break : Verdict → Option Bytes → Option Verdict
add_break r none = none
add_break r (some text) = some (false, r.1 ++ text ∷ [])

-- One round of the loop over the links; `none` is a panic.
unfoldable pub check_link : EventResponse → Bytes → Verdict → Option Verdict
unfolding prefix
check_link e expected r =
    if eq_bytes e.proof.prev_hash expected
    then some r
    else add_break r (broken_text e.facto_id (prefix expected) (prefix e.proof.prev_hash))

abbrev pub unless_panicked : (Verdict → Option Verdict) → Option Verdict → Option Verdict
unless_panicked next none = none
unless_panicked next (some r) = next r

unfoldable pub check_links : List EventResponse → Bytes → Verdict → Option Verdict
unfolding check_link
check_links [] expected r = some r
check_links (e ∷ es) expected r =
    unless_panicked (check_links es e.proof.event_hash) (check_link e expected r)

module _ (sha256 : Digest) (v : Verifier) where
  -- The response, from the verdicts of the three loops.
  abbrev pub respond :
      List EventResponse → Bool → Bool → Option Verdict → Response ChainVerifyResponse
  respond es hashes signatures none = panicked
  respond es hashes signatures (some (links, errors)) = success (record {
    valid = hashes && signatures && links;
    event_count = length es;
    checks = record {
      all_hashes_valid = hashes;
      all_signatures_valid = signatures;
      chain_integrity_valid = links;
    };
    first_event = first_id es;
    last_event = last_or [] (map (λ e. e.facto_id) es);
    session_hash = Hex.encode (sha256.sum (concat (map (λ e. e.proof.event_hash) es)));
    errors = errors;
  })
    where
      first_id : List EventResponse → Bytes
      first_id [] = []
      first_id (e ∷ es) = e.facto_id

  -- VerifyChain after sorting.
  unfoldable pub verify_events : List EventResponse → Response ChainVerifyResponse
  unfolding check_each check_links
  verify_events es =
      let hashes = check_each (verify_hash v) (codes "Hash invalid for event: ") es (true, []) in
      let signatures =
        check_each (verify_signature v) (codes "Signature invalid for event: ") es
          (true, hashes.1) in
      respond es hashes.0 signatures.0 (check_links es zero_hash (true, signatures.1))

  module _ (sorter : Sorter (λ (e : EventResponse). e.completed_at)) where
    abbrev pub verify_page : Result Page → Response ChainVerifyResponse
    verify_page (err e) = failure 500 (codes "failed to fetch events")
    verify_page (ok ([], next)) = failure 404 (codes "no events found for session")
    verify_page (ok (e ∷ es, next)) = verify_events (sorter.sort (e ∷ es))

    -- VerifyChain, of the session that the request names.
    unfoldable pub handle_verify_chain :
        Codec → (Bytes → ℕ → Rows SessionRow) → Bound Bytes → Response ChainVerifyResponse
    unfolding verify_events
    handle_verify_chain codec query (refused text) = failure 400 text
    handle_verify_chain codec query (bound session_id) =
        verify_page (get_session_events codec query session_id 10000 [])
