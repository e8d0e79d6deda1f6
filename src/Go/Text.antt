-- ===== src/Go/Text.antt =====
-- A Go `string` and a `[]byte` are both sequences of bytes.
use Prim.Native.Char.{code}
use Prim.Native.String.{String}
use facto.Base.{ℕ, List, [], ◌∷◌, All, ◌<◌}

abbrev pub Bytes : Type 0
Bytes = List ℕ

-- The bytes of an ASCII literal of the source.
abbrev pub codes : String → Bytes
codes String.[] = []
codes (String.◌∷◌ c s) = code c ∷ codes s

-- Every element is a byte.
abbrev pub AreBytes : Bytes → Type 0
AreBytes = All (λ b. b < 256)
