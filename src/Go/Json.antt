-- ===== src/Go/Json.antt =====
-- The values of encoding/json: what Go's `interface{}` holds after decoding. A JSON number is a float64,
-- by its bits; `int` is a Go integer that the program puts there. A `map[string]interface{}` lists its entries in some order, and may be nil.
use facto.Base.{ℕ, Bool}
use facto.Base.Int.{ℤ}
use facto.Go.Text.{Bytes}

mutual
  pub data Value : Type 0 where
    null : Value
    bool : Bool → Value
    num : ℕ → Value
    int : ℤ → Value
    str : Bytes → Value
    arr : Items → Value
    obj : Fields → Value

  pub data Items : Type 0 where
    nil : Items
    cons : Value → Items → Items

  pub data Fields : Type 0 where
    end : Fields
    field : Bytes → Value → Fields → Fields
