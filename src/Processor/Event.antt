-- ===== src/Processor/Event.antt =====
-- The messages of server/processor/consumer.go: an event as the ingestion service publishes it.
-- A pointer to a value is `none` for nil. An int64 is an integer, a float64 is known by its bits.
use facto.Base.{ℕ, Option, List}
use facto.Base.Int.{ℤ}
use facto.Go.Text.{Bytes}
use facto.Go.Json.{Value, Fields}

pub record ExecutionMeta : Type 0 where
  pub model_id : Option Bytes
  pub model_hash : Option Bytes
  pub temperature : Option ℕ
  pub seed : Option ℤ
  pub max_tokens : Option ℤ
  pub tool_calls : Option (List Value)
  pub sdk_version : Bytes
  pub sdk_language : Bytes
  pub tags : Option (List (Bytes × Bytes))

pub record Proof : Type 0 where
  pub signature : Bytes
  pub public_key : Bytes
  pub prev_hash : Bytes
  pub event_hash : Bytes

pub record FactoEvent : Type 0 where
  pub facto_id : Bytes
  pub agent_id : Bytes
  pub session_id : Bytes
  pub parent_facto_id : Option Bytes
  pub action_type : Bytes
  pub status : Bytes
  pub input_data : Option Fields
  pub output_data : Option Fields
  pub execution_meta : ExecutionMeta
  pub proof : Proof
  pub started_at : ℤ
  pub completed_at : ℤ
