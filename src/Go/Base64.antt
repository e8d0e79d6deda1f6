-- ===== src/Go/Base64.antt =====
-- encoding/base64: `EncodeToString` and `DecodeString` of StdEncoding, with padding.
pub mod RoundTrip
use facto.Base.{
  ℕ, ◌+◌, ◌-◌, ◌*◌, ◌/◌, ◌%◌, [], ◌∷◌, ltb, ◌==◌, if◌then◌else◌, leb, ◌++◌, ◌&&◌, ◌||◌, Option,
  some, none, ◌≡◌, refl, arith, ap, ap₂, ◌∙◌, ◌<◌, false, ℕ_discrete,
}
use facto.Go.Text.{Bytes, AreBytes}

-- The character of a value below 64.
unfoldable pub symbol : ℕ → ℕ
symbol n =
    if ltb n 26
    then n + 65
    else if ltb n 52
    then n + 71
    else if ltb n 62
    then n - 4
    else if n == 62
    then 43
    else 47

unfoldable pub encode : Bytes → Bytes
unfolding symbol
encode [] = []
encode (a ∷ []) = symbol (a / 4) ∷ symbol (a % 4 * 16) ∷ 61 ∷ 61 ∷ []
encode (a ∷ b ∷ []) = symbol (a / 4) ∷ symbol (a % 4 * 16 + b / 16) ∷ symbol (b % 16 * 4) ∷ 61 ∷ []
encode (a ∷ b ∷ c ∷ rest) =
    symbol (a / 4)
    ∷ symbol (a % 4 * 16 + b / 16)
    ∷ symbol (b % 16 * 4 + c / 64)
    ∷ symbol (c % 64)
    ∷ encode rest

-- `DecodeString` without the line breaks that it skips.
unfoldable pub value : ℕ → Option ℕ
value c =
    if leb 65 c && leb c 90
    then some (c - 65)
    else if leb 97 c && leb c 122
    then some (c - 71)
    else if leb 48 c && leb c 57
    then some (c + 4)
    else if c == 43
    then some 62
    else if c == 47
    then some 63
    else none

unfoldable strip : Bytes → Bytes
strip [] = []
strip (c ∷ cs) = let rest = strip cs in if c == 10 || (c == 13) then rest else c ∷ rest

-- The bytes of four characters, and of three or two before padding.
unfoldable pack : Option ℕ → Option ℕ → Option ℕ → Option ℕ → Option Bytes
pack (some x) (some y) (some z) (some w) =
    some ((x * 4 + y / 16) ∷ (y % 16 * 16 + z / 4) ∷ (z % 4 * 64 + w) ∷ [])
pack (some x) (some y) (some z) none = none
pack (some x) (some y) none w = none
pack (some x) none z w = none
pack none y z w = none

abbrev two : Option ℕ → Option ℕ → Option ℕ → Option Bytes
two (some x) (some y) (some z) = some ((x * 4 + y / 16) ∷ (y % 16 * 16 + z / 4) ∷ [])
two (some x) (some y) none = none
two (some x) none z = none
two none y z = none

abbrev one : Option ℕ → Option ℕ → Option Bytes
one (some x) (some y) = some ((x * 4 + y / 16) ∷ [])
one (some x) none = none
one none y = none

unfoldable joined : Option Bytes → Option Bytes → Option Bytes
joined (some xs) (some ys) = some (xs ++ ys)
joined (some xs) none = none
joined none ys = none

unfoldable pub last_bytes : ℕ → ℕ → ℕ → ℕ → Option Bytes
unfolding value pack
last_bytes a b c d =
    if d == 61
    then if c == 61 then one (value a) (value b) else two (value a) (value b) (value c)
    else pack (value a) (value b) (value c) (value d)

unfoldable pub decode_from : Bytes → Option Bytes
unfolding last_bytes joined
decode_from [] = some []
decode_from (a ∷ []) = none
decode_from (a ∷ b ∷ []) = none
decode_from (a ∷ b ∷ c ∷ []) = none
decode_from (a ∷ b ∷ c ∷ d ∷ []) = last_bytes a b c d
decode_from (a ∷ b ∷ c ∷ d ∷ e ∷ rest) =
    joined (pack (value a) (value b) (value c) (value d)) (decode_from (e ∷ rest))

-- `DecodeString`, of which the source looks at the bytes only if there is no error. Line breaks are
-- skipped anywhere.
unfoldable pub decode : Bytes → Option Bytes
unfolding strip
decode s = decode_from (strip s)
