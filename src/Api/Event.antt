-- ===== src/Api/Event.antt =====
-- The events of API responses in server/api/handlers.go. A pointer is `none` for nil.
use facto.Base.{ℕ, Option, List}
use facto.Base.Int.{ℤ}
use facto.Go.Text.{Bytes}
use facto.Go.Json.{Value, Fields}

pub record ExecutionMetaResponse : Type 0 where
  pub model_id : Option Bytes
  pub model_hash : Option Bytes
  pub temperature : Option ℕ
  pub seed : Option ℤ
  pub max_tokens : Option ℤ
  pub tool_calls : Option (List Value)
  pub sdk_version : Bytes
  pub sdk_language : Bytes
  pub tags : Option (List (Bytes × Bytes))

pub record ProofResponse : Type 0 where
  pub signature : Bytes
  pub public_key : Bytes
  pub prev_hash : Bytes
  pub event_hash : Bytes

pub record EventResponse : Type 0 where
  pub facto_id : Bytes
  pub agent_id : Bytes
  pub session_id : Bytes
  pub parent_facto_id : Option Bytes
  pub action_type : Bytes
  pub status : Bytes
  pub input_data : Option Fields
  pub output_data : Option Fields
  pub execution_meta : ExecutionMetaResponse
  pub proof : ProofResponse
  pub started_at : ℤ
  pub completed_at : ℤ
