-- ===== src/Go/Library.antt =====
-- What the services call of encoding/json and of the conversions between floats, as a parameter.
use facto.Base.{ℕ, Option, List}
use facto.Go.Text.{Bytes}
use facto.Go.Json.{Value, Fields}

-- `json.Marshal` of a value, and of a map or a slice that may be nil; `json.Unmarshal` into a map or a
-- slice, where `none` leaves the variable nil. `narrow` and `widen` are the conversions between float64
-- and float32, by their bits.
pub record Codec : Type 0 where
  pub marshal_map : Option Fields → Bytes
  pub marshal_slice : Option (List Value) → Bytes
  pub unmarshal_map : Bytes → Option Fields
  pub unmarshal_slice : Bytes → Option (List Value)
  pub narrow : ℕ → ℕ
  pub widen : ℕ → ℕ
