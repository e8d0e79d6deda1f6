-- ===== src/Api/Handlers.antt =====
-- server/api/handlers.go: the handlers that read events. A handler's response carries the status that the
-- request counter counts. Binding and parsing of a request are parameters.
pub mod Bounds
use facto.Base.{
  ℕ, List, [], Option, none, some, Bool, true, false, ◌==◌, ◌||◌, ltb, if◌then◌else◌, ◌&&◌, length,
}
use facto.Base.Int.{ℤ, pos, negsuc}
use facto.Go.Text.{Bytes, codes}
use facto.Go.Time.{Time}
use facto.Go.Library.{Codec}
use facto.Processor.Storage.{EventRow, SessionRow}
use facto.Api.Event.{EventResponse}
use facto.Api.Storage.{
  Error, Rows, Single, Result, ok, err, Page, get_events, get_event_by_facto_id, get_session_events,
}
use facto.Api.Verify.{Verifier, verify_hash, verify_signature}

-- What a handler writes: a status with an error text, or 200 with a body; or it panics.
pub data Response (A : Type 0) : Type 0 where
  failure : ℕ → Bytes → Response A
  success : A → Response A
  panicked : Response A

-- What ShouldBindQuery or ShouldBindJSON gives: the request, or the text of its error.
pub data Bound (A : Type 0) : Type 0 where
  bound : A → Bound A
  refused : Bytes → Bound A

pub record EventsQuery : Type 0 where
  pub agent_id : Bytes
  pub start : Bytes
  pub end : Bytes
  pub limit : ℤ
  pub cursor : Bytes

pub record SessionEventsQuery : Type 0 where
  pub limit : ℤ
  pub cursor : Bytes

-- `if query.Limit <= 0 || query.Limit > 1000 { query.Limit = 100 }`
unfoldable pub limit_or_default : ℤ → ℕ
limit_or_default (pos n) = if n == 0 || ltb 1000 n then 100 else n
limit_or_default (negsuc n) = 100

abbrev pub fetched : {A : Type 0} → Bytes → Result A → Response A
fetched text (ok a) = success a
fetched text (err e) = failure 500 text

module _ (codec : Codec) where
  -- GetEvents after the binding; `parse` is time.Parse with the layout RFC3339. The body is the events and
  -- the next cursor.
  abbrev pub get_bound_events :
      (Bytes → Option Time)
      → (Bytes → Time → Time → Time → ℕ → Rows EventRow)
      → EventsQuery
      → Response Page
  get_bound_events parse query q = elim (parse q.start) [
    | none ↦ failure 400 (codes "invalid start time format")
    | some start ↦ elim (parse q.end) [
      | none ↦ failure 400 (codes "invalid end time format")
      | some end ↦
          fetched (codes "failed to fetch events")
            (get_events codec query q.agent_id start end (limit_or_default q.limit) q.cursor)
    ]
  ]

  unfoldable pub handle_get_events :
      (Bytes → Option Time)
      → (Bytes → Time → Time → Time → ℕ → Rows EventRow)
      → Bound EventsQuery
      → Response Page
  unfolding limit_or_default
  handle_get_events parse query (refused text) = failure 400 text
  handle_get_events parse query (bound q) = get_bound_events parse query q

  abbrev pub found_event : Result (Option EventResponse) → Response EventResponse
  found_event (err e) = failure 500 (codes "failed to fetch event")
  found_event (ok none) = failure 404 (codes "event not found")
  found_event (ok (some e)) = success e

  -- GetEventByFactoID
  unfoldable pub handle_get_event : (Bytes → Single EventRow) → Bytes → Response EventResponse
  handle_get_event query facto_id =
      if length facto_id == 0
      then failure 400 (codes "facto_id is required")
      else found_event (get_event_by_facto_id codec query facto_id)

  -- GetSessionEvents, which goes on with what the binding has set when it fails.
  unfoldable pub handle_get_session_events :
      (Bytes → ℕ → Rows SessionRow) → Bytes → SessionEventsQuery → Response Page
  unfolding limit_or_default
  handle_get_session_events query session_id q =
      if length session_id == 0
      then failure 400 (codes "session_id is required")
      else fetched (codes "failed to fetch events")
          (get_session_events codec query session_id (limit_or_default q.limit) q.cursor)

pub record VerifyCheck : Type 0 where
  pub hash_valid : Bool
  pub signature_valid : Bool
  pub chain_valid : Option Bool

pub record VerifyResponse : Type 0 where
  pub valid : Bool
  pub checks : VerifyCheck

module _ (v : Verifier) where
  -- VerifyEvent
  unfoldable pub handle_verify_event : Bound EventResponse → Response VerifyResponse
  handle_verify_event (refused text) = failure 400 text
  handle_verify_event (bound e) =
      let hash_valid = verify_hash v e in
      let signature_valid = verify_signature v e in
      success (record {
        valid = hash_valid && signature_valid;
        checks = record {
          hash_valid = hash_valid;
          signature_valid = signature_valid;
          chain_valid = none;
        };
      })
