-- ===== src/Api/Storage/Stored.antt =====
-- What the API of server/api/storage.go reads back of an event that server/processor/storage.go stored.
use facto.Base.{
  ℕ, ◌+◌, ◌-◌, ◌%◌, ◌≡◌, refl, Option, none, some, [], arith, Option-cases, inl, inr, ℕ_discrete,
}
use facto.Base.Int.{ℤ, pos}
use facto.Go.Text.{Bytes, codes}
use facto.Go.Json.{end as no_fields}
use facto.Go.Time.{Time, from_unix_nano, unix_nano, epoch}
use facto.Go.Library.{Codec}
use facto.Processor.Event.{FactoEvent}
use facto.Processor.Storage.{EventRow, SessionRow, or_zero, process, event_row, session_row}
use facto.Api.Event.{EventResponse}
use facto.Api.Storage.{
  non_empty, non_zero, non_zero_float, or_empty, event_of_row, event_of_session_row,
  build_event_response,
}

-- An optional value that is lost if it is the empty string, or zero.
abbrev pub unless_empty : Option Bytes → Option Bytes
unless_empty o = non_empty (or_zero [] o)

abbrev pub unless_zero : Option ℤ → Option ℤ
unless_zero o = non_zero (or_zero (pos 0) o)

-- JSON gives the event's maps and its slice back, nil as nil, and `[]` is the empty slice.
pub record RoundTrips (codec : Codec) (e : FactoEvent) : Type 0 where
  pub input : codec.unmarshal_map (codec.marshal_map e.input_data) ≡ e.input_data
  pub output : codec.unmarshal_map (codec.marshal_map e.output_data) ≡ e.output_data
  pub tools :
      codec.unmarshal_slice (codec.marshal_slice e.execution_meta.tool_calls)
      ≡ e.execution_meta.tool_calls
  pub empty_slice : codec.unmarshal_slice (codes "[]") ≡ some []

-- What a column of times gives back is a parameter: the tables of infrastructure/scylla have the type
-- `timestamp` there, which keeps milliseconds.
module _ (column : Time → Time) (codec : Codec) (e : FactoEvent) where
  abbrev pub read_row : EventRow → EventRow
  read_row r = record r { started_at = column r.started_at; completed_at = column r.completed_at }

  abbrev pub read_session_row : SessionRow → SessionRow
  read_session_row r = record r {
    started_at = column r.started_at;
    completed_at = column r.completed_at;
  }

  abbrev pub read_time : ℤ → ℤ
  read_time t = unix_nano (column (from_unix_nano t))

  abbrev pub stored_temperature : Option ℕ → Option ℕ
  stored_temperature none = none
  stored_temperature (some t) = non_zero_float codec.widen (codec.narrow t)

  -- The event that `events` and `events_by_facto_id` give back.
  abbrev pub as_stored : EventResponse
  as_stored = record {
    facto_id = e.facto_id;
    agent_id = e.agent_id;
    session_id = e.session_id;
    parent_facto_id = unless_empty e.parent_facto_id;
    action_type = e.action_type;
    status = e.status;
    input_data = or_empty no_fields e.input_data;
    output_data = or_empty no_fields e.output_data;
    execution_meta = record {
      model_id = unless_empty e.execution_meta.model_id;
      model_hash = unless_empty e.execution_meta.model_hash;
      temperature = stored_temperature e.execution_meta.temperature;
      seed = unless_zero e.execution_meta.seed;
      max_tokens = unless_zero e.execution_meta.max_tokens;
      tool_calls = or_empty [] e.execution_meta.tool_calls;
      sdk_version = e.execution_meta.sdk_version;
      sdk_language = e.execution_meta.sdk_language;
      tags = or_empty [] e.execution_meta.tags;
    };
    proof = record {
      signature = e.proof.signature;
      public_key = e.proof.public_key;
      prev_hash = e.proof.prev_hash;
      event_hash = e.proof.event_hash;
    };
    started_at = read_time e.started_at;
    completed_at = read_time e.completed_at;
  }

  -- The one that `events_by_session` gives back: no model hash, seed or token limit, and no tool calls.
  abbrev pub as_stored_by_session : EventResponse
  as_stored_by_session = record as_stored {
    execution_meta = record as_stored.execution_meta {
      model_hash = none;
      seed = none;
      max_tokens = none;
      tool_calls = some [];
    };
  }

  pub stored_rows-events :
      (now : Time)
      → RoundTrips codec e
      → (event_of_row codec (read_row (event_row now (process codec e))) ≡ as_stored)
        × (event_of_session_row codec (read_session_row (session_row now (process codec e)))
            ≡ as_stored_by_session)
  unfolding event_of_row event_of_session_row event_row session_row process build_event_response
      ℕ_discrete
  stored_rows-events now codec_ok = elim (Option-cases e.execution_meta.temperature) [
    | inl absent ↦
        rw (codec_ok.input, codec_ok.output, codec_ok.tools, codec_ok.empty_slice, absent)
          (refl, refl)
    | inr (t, present) ↦
        rw (codec_ok.input, codec_ok.output, codec_ok.tools, codec_ok.empty_slice, present)
          (refl, refl)
  ]

  -- If the columns keep milliseconds, the time of completion that is read back is the event's, in
  -- nanoseconds since the epoch, rounded down to a millisecond.
  pub completed_at-millis :
      ((t : Time) → column t ≡ t - t % 1000000)
      → (now : Time) (n : ℕ) → e.completed_at ≡ pos n
      → (event_of_row codec (read_row (event_row now (process codec e)))).completed_at
        ≡ pos (n - n % 1000000)
  unfolding event_of_row event_row process build_event_response from_unix_nano unix_nano
  completed_at-millis millis now n at = rw (at, millis (epoch + n)) (ground arith)
