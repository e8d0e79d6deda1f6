-- ===== src/Processor/Storage.antt =====
-- server/processor/storage.go: the rows that StoreBatch writes, in batches of at most 50 statements, by
-- three goroutines at once, each into its own table.
pub mod Batch
pub mod Complete
pub mod Returns
use facto.Base.{
  ℕ, zero, suc, ◌+◌, ◌-◌, List, [], ◌∷◌, ◌++◌, map, Option, none, some, Bool, true, false, ltb,
  if◌then◌else◌, length, take, drop,
}
use facto.Base.Int.{ℤ, pos}
use facto.Go.Text.{Bytes}
use facto.Go.Time.{Time, truncate_day, from_unix_nano}
use facto.Go.Library.{Codec}
use facto.Processor.Event.{FactoEvent, ExecutionMeta, Proof}

abbrev pub max_batch_size : ℕ
max_batch_size = 50

pub record EventData : Type 0 where
  pub event : FactoEvent
  pub input_data : Bytes
  pub output_data : Bytes
  pub tool_calls : Bytes
  pub completed_time : Time
  pub event_date : Time
  pub model_id : Bytes
  pub model_hash : Bytes
  pub sdk_version : Bytes
  pub sdk_language : Bytes
  pub temperature : ℕ
  pub seed : ℤ
  pub max_tokens : ℤ
  pub parent_facto_id : Bytes

-- A row of `events` and of `events_by_facto_id`, which have the same columns.
pub record EventRow : Type 0 where
  pub agent_id : Bytes
  pub date : Time
  pub facto_id : Bytes
  pub session_id : Bytes
  pub parent_facto_id : Bytes
  pub action_type : Bytes
  pub status : Bytes
  pub input_data : Bytes
  pub output_data : Bytes
  pub model_id : Bytes
  pub model_hash : Bytes
  pub temperature : ℕ
  pub seed : ℤ
  pub max_tokens : ℤ
  pub tool_calls : Bytes
  pub sdk_version : Bytes
  pub sdk_language : Bytes
  pub tags : Option (List (Bytes × Bytes))
  pub signature : Bytes
  pub public_key : Bytes
  pub prev_hash : Bytes
  pub event_hash : Bytes
  pub started_at : Time
  pub completed_at : Time
  pub received_at : Time

-- A row of `events_by_session`, which has no model_hash, seed, max_tokens and tool_calls.
pub record SessionRow : Type 0 where
  pub session_id : Bytes
  pub completed_at : Time
  pub facto_id : Bytes
  pub agent_id : Bytes
  pub action_type : Bytes
  pub status : Bytes
  pub event_hash : Bytes
  pub input_data : Bytes
  pub output_data : Bytes
  pub model_id : Bytes
  pub temperature : ℕ
  pub sdk_version : Bytes
  pub sdk_language : Bytes
  pub tags : Option (List (Bytes × Bytes))
  pub signature : Bytes
  pub public_key : Bytes
  pub prev_hash : Bytes
  pub parent_facto_id : Bytes
  pub started_at : Time
  pub received_at : Time

-- `if p != nil { v = *p }`, with the zero value of `v`
abbrev pub or_zero {ℓ} : {A : Type ℓ} → A → Option A → A
or_zero z none = z
or_zero z (some v) = v

module _ (codec : Codec) where
  -- The body of the first loop of StoreBatch.
  unfoldable pub process : FactoEvent → EventData
  process event = record {
    event = event;
    input_data = codec.marshal_map event.input_data;
    output_data = codec.marshal_map event.output_data;
    tool_calls = codec.marshal_slice event.execution_meta.tool_calls;
    completed_time = from_unix_nano event.completed_at;
    event_date = truncate_day (from_unix_nano event.completed_at);
    model_id = or_zero [] event.execution_meta.model_id;
    model_hash = or_zero [] event.execution_meta.model_hash;
    sdk_version = event.execution_meta.sdk_version;
    sdk_language = event.execution_meta.sdk_language;
    temperature = narrow_or_zero event.execution_meta.temperature;
    seed = or_zero (pos 0) event.execution_meta.seed;
    max_tokens = or_zero (pos 0) event.execution_meta.max_tokens;
    parent_facto_id = or_zero [] event.parent_facto_id;
  }
    where
      narrow_or_zero : Option ℕ → ℕ
      narrow_or_zero none = 0
      narrow_or_zero (some t) = codec.narrow t

-- The values of the INSERT into `events`, and of that into `events_by_facto_id`, at the time `now`.
unfoldable pub event_row : Time → EventData → EventRow
event_row now e = record {
  agent_id = e.event.agent_id;
  date = e.event_date;
  facto_id = e.event.facto_id;
  session_id = e.event.session_id;
  parent_facto_id = e.parent_facto_id;
  action_type = e.event.action_type;
  status = e.event.status;
  input_data = e.input_data;
  output_data = e.output_data;
  model_id = e.model_id;
  model_hash = e.model_hash;
  temperature = e.temperature;
  seed = e.seed;
  max_tokens = e.max_tokens;
  tool_calls = e.tool_calls;
  sdk_version = e.sdk_version;
  sdk_language = e.sdk_language;
  tags = e.event.execution_meta.tags;
  signature = e.event.proof.signature;
  public_key = e.event.proof.public_key;
  prev_hash = e.event.proof.prev_hash;
  event_hash = e.event.proof.event_hash;
  started_at = from_unix_nano e.event.started_at;
  completed_at = e.completed_time;
  received_at = now;
}

unfoldable pub session_row : Time → EventData → SessionRow
session_row now e = record {
  session_id = e.event.session_id;
  completed_at = e.completed_time;
  facto_id = e.event.facto_id;
  agent_id = e.event.agent_id;
  action_type = e.event.action_type;
  status = e.event.status;
  event_hash = e.event.proof.event_hash;
  input_data = e.input_data;
  output_data = e.output_data;
  model_id = e.model_id;
  temperature = e.temperature;
  sdk_version = e.sdk_version;
  sdk_language = e.sdk_language;
  tags = e.event.execution_meta.tags;
  signature = e.event.proof.signature;
  public_key = e.event.proof.public_key;
  prev_hash = e.event.proof.prev_hash;
  parent_facto_id = e.parent_facto_id;
  started_at = from_unix_nano e.event.started_at;
  received_at = now;
}
