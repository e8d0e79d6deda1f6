-- ===== src/Api/Storage.antt =====
-- server/api/storage.go: the queries of the API. The database is a parameter: what each query yields, and
-- whether its iterator closes with an error.
pub mod Pages
pub mod Dates
pub mod Found
pub mod Stored
use facto.Base.{
  ℕ, zero, suc, ◌+◌, ◌-◌, ◌/◌, List, [], ◌∷◌, ◌++◌, map, Option, none, some, Bool, true, false, ltb,
  leb, ◌==◌, ◌||◌, not, if◌then◌else◌, length, take, last_or, eq_bytes,
}
use facto.Base.Int.{ℤ, pos, negsuc}
use facto.Go.Text.{Bytes, codes}
use facto.Go.Json.{Value, Fields, end as no_fields}
use facto.Go.Time.{Time, day, truncate_day, unix_nano}
use facto.Go.Library.{Codec}
use facto.Go.Base64
use facto.Processor.Storage.{EventRow, SessionRow}
use facto.Api.Event.{EventResponse, ExecutionMetaResponse, ProofResponse}

abbrev pub Error : Type 0
Error = ℕ

-- `if v != "" { p = &v }`, and the same for a number.
abbrev pub non_empty : Bytes → Option Bytes
non_empty [] = none
non_empty (b ∷ bs) = some (b ∷ bs)

abbrev pub non_zero : ℤ → Option ℤ
non_zero (pos zero) = none
non_zero (pos (suc n)) = some (pos (suc n))
non_zero (negsuc n) = some (negsuc n)

-- `temperature != 0` of a float32: both zeros have no other bit than the sign.
abbrev pub non_zero_float : (ℕ → ℕ) → ℕ → Option ℕ
non_zero_float widen bits =
    let widened = widen bits in if bits == 0 || (bits == 2147483648) then none else some widened

-- `if v == nil { v = empty }`
abbrev pub or_empty {ℓ} : {A : Type ℓ} → A → Option A → Option A
or_empty empty none = some empty
or_empty empty (some v) = some v

module _ (codec : Codec) where
  unfoldable pub build_event_response :
      (facto_id agent_id session_id parent_facto_id action_type status input_data
        output_data : Bytes)
      (model_id model_hash : Bytes) (temperature : ℕ) (seed max_tokens : ℤ)
      (tool_calls sdk_version sdk_language : Bytes) (tags : Option (List (Bytes × Bytes)))
      (signature public_key prev_hash event_hash : Bytes) (started_at completed_at : Time)
      → EventResponse
  build_event_response facto_id agent_id session_id parent_facto_id action_type status input_data
        output_data model_id model_hash temperature seed max_tokens tool_calls sdk_version
        sdk_language tags signature public_key prev_hash event_hash started_at completed_at =
      record {
        facto_id = facto_id;
        agent_id = agent_id;
        session_id = session_id;
        parent_facto_id = non_empty parent_facto_id;
        action_type = action_type;
        status = status;
        input_data = or_empty no_fields (codec.unmarshal_map input_data);
        output_data = or_empty no_fields (codec.unmarshal_map output_data);
        execution_meta = record {
          model_id = non_empty model_id;
          model_hash = non_empty model_hash;
          temperature = non_zero_float codec.widen temperature;
          seed = non_zero seed;
          max_tokens = non_zero max_tokens;
          tool_calls = or_empty [] (codec.unmarshal_slice tool_calls);
          sdk_version = sdk_version;
          sdk_language = sdk_language;
          tags = or_empty [] tags;
        };
        proof = record {
          signature = signature;
          public_key = public_key;
          prev_hash = prev_hash;
          event_hash = event_hash;
        };
        started_at = unix_nano started_at;
        completed_at = unix_nano completed_at;
      }

  -- The event of a scanned row of `events` or `events_by_facto_id`.
  unfoldable pub event_of_row : EventRow → EventResponse
  unfolding build_event_response
  event_of_row r =
      build_event_response r.facto_id r.agent_id r.session_id r.parent_facto_id r.action_type
        r.status r.input_data r.output_data r.model_id r.model_hash r.temperature r.seed
        r.max_tokens r.tool_calls r.sdk_version r.sdk_language r.tags r.signature r.public_key
        r.prev_hash r.event_hash r.started_at r.completed_at

  -- The event of a scanned row of `events_by_session`, which has no columns for the model's hash, the
  -- seed, the token limit and the tool calls.
  unfoldable pub event_of_session_row : SessionRow → EventResponse
  unfolding build_event_response
  event_of_session_row r =
      build_event_response r.facto_id r.agent_id r.session_id r.parent_facto_id r.action_type
        r.status r.input_data r.output_data r.model_id [] r.temperature (pos 0) (pos 0) (codes "[]")
        r.sdk_version r.sdk_language r.tags r.signature r.public_key r.prev_hash r.event_hash
        r.started_at r.completed_at

-- The rows that an iterator yields, and what Close returns.
pub record Rows (R : Type 0) : Type 0 where
  pub rows : List R
  pub close : Option Error

-- What a query for a single row yields.
pub data Single (R : Type 0) : Type 0 where
  row : R → Single R
  not_found : Single R
  query_failed : Error → Single R

-- A result and an error, of which one is nil.
pub data Result (A : Type 0) : Type 0 where
  ok : A → Result A
  err : Error → Result A

-- `for !current.After(endDate)`: the days that are left.
unfoldable pub dates_from : ℕ → Time → Time → List Time
dates_from zero current end_date = []
dates_from (suc fuel) current end_date =
    let rest = dates_from fuel (current + day) end_date in
    if ltb end_date current then [] else current ∷ rest

-- As many rounds as there are days between the two, and one more.
unfoldable pub get_date_range : Time → Time → List Time
unfolding dates_from truncate_day
get_date_range start end =
    dates_from (suc (truncate_day end / day)) (truncate_day start) (truncate_day end)

-- A page of events and the next cursor.
abbrev pub Page : Type 0
Page = List EventResponse × Option Bytes

-- The last part of GetEvents and GetSessionEvents.
unfoldable pub paginate : ℕ → List EventResponse → Page
paginate limit events =
    if ltb limit (length events)
    then (
      take limit events,
      some (Base64.encode (last_or [] (map (λ e. e.facto_id) (take limit events)))),
    )
    else (events, none)

abbrev pub page_of : ℕ → Result (List EventResponse) → Result Page
page_of limit (ok events) = ok (paginate limit events)
page_of limit (err e) = err e

module _ (codec : Codec) where
  -- The loop of Scan in GetEvents, which stops at the limit: the events, and the agent's identifier, which
  -- Scan overwrites.
  unfoldable pub scan_events :
      ℕ → List EventRow → List EventResponse → Bytes → List EventResponse × Bytes
  unfolding event_of_row
  scan_events limit [] events agent_id = (events, agent_id)
  scan_events limit (r ∷ rs) events agent_id =
      let events' = events ++ event_of_row codec r ∷ [] in
      let rest = scan_events limit rs events' r.agent_id in
      if leb limit (length events') then (events', r.agent_id) else rest

  -- The loop over the dates.
  unfoldable pub scan_dates :
      (Bytes → Time → Rows EventRow)
      → ℕ
      → List Time
      → List EventResponse
      → Bytes
      → Result (List EventResponse)
  scan_dates query limit [] events agent_id = ok events
  scan_dates query limit (date ∷ dates) events agent_id =
      let found = query agent_id date in
      let scanned = scan_events limit found.rows events agent_id in
      let rest = scan_dates query limit dates scanned.0 scanned.1 in
      elim found.close [
        | some e ↦ err e
        | none ↦ if leb limit (length scanned.0) then ok scanned.0 else rest
      ]

  -- GetEvents. The query's other arguments are the times and the limit plus one; the cursor is not read.
  unfoldable pub get_events :
      (Bytes → Time → Time → Time → ℕ → Rows EventRow)
      → Bytes
      → Time
      → Time
      → ℕ
      → Bytes
      → Result Page
  get_events query agent_id start end limit cursor = page_of limit (
      scan_dates (λ agent date. query agent date start end (limit + 1)) limit
        (get_date_range start end) [] agent_id)

  abbrev pub single_event : Single EventRow → Result (Option EventResponse)
  single_event (row r) = ok (some (event_of_row codec r))
  single_event not_found = ok none
  single_event (query_failed e) = err e

  unfoldable pub get_event_by_facto_id :
      (Bytes → Single EventRow) → Bytes → Result (Option EventResponse)
  get_event_by_facto_id query facto_id = single_event (query facto_id)

  -- The loop of Scan in GetSessionEvents, which stops past the limit.
  unfoldable pub scan_session : ℕ → List SessionRow → List EventResponse → List EventResponse
  unfolding event_of_session_row
  scan_session limit [] events = events
  scan_session limit (r ∷ rs) events =
      let events' = events ++ event_of_session_row codec r ∷ [] in
      let rest = scan_session limit rs events' in
      if ltb limit (length events') then events' else rest

  unfoldable pub get_session_events :
      (Bytes → ℕ → Rows SessionRow) → Bytes → ℕ → Bytes → Result Page
  get_session_events query session_id limit cursor =
      let found = query session_id (limit + 1) in
      elim found.close [
        | some e ↦ err e
        | none ↦ ok (paginate limit (scan_session limit found.rows []))
      ]
