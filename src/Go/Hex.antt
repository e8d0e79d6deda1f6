-- ===== src/Go/Hex.antt =====
-- encoding/hex: `EncodeToString` and `DecodeString`, as server/processor/merkle.go and
-- server/api/handlers.go use them. `DecodeString` returns the bytes decoded before an error.
use facto.Base.{
  ℕ, ◌+◌, ◌-◌, ◌*◌, ◌/◌, ◌%◌, ◌<◌, ◌≡◌, refl, sym, ap, ◌∙◌, ◌&&◌, [], ◌∷◌, Option, none, some,
  arith, ltb, leb, if◌then◌else◌, length,
}
use facto.Go.Text.{Bytes, AreBytes}

-- `hextable[n]`
unfoldable pub digit : ℕ → ℕ
digit n = if ltb n 10 then n + 48 else n + 87

-- `reverseHexTable[c]`: `none` is the entry 0xff. Both cases of a letter are accepted.
unfoldable pub value : ℕ → Option ℕ
value c =
    if leb 48 c && leb c 57
    then some (c - 48)
    else if leb 97 c && leb c 102
    then some (c - 87)
    else if leb 65 c && leb c 70
    then some (c - 55)
    else none

unfoldable pub encode : Bytes → Bytes
encode [] = []
encode (b ∷ bs) = digit (b / 16) ∷ digit (b % 16) ∷ encode bs

-- The two digits of a byte.
unfoldable pub pair : Option ℕ → Option ℕ → Option ℕ
pair (some a) (some b) = some (a * 16 + b)
pair (some a) none = none
pair none b = none

abbrev pub cons_byte : Option ℕ → Bytes → Bytes
cons_byte none bs = []
cons_byte (some b) bs = b ∷ bs

-- The bytes that `DecodeString` returns beside its error, which the source discards.
unfoldable pub decode : Bytes → Bytes
decode [] = []
decode (c ∷ []) = []
decode (c ∷ d ∷ cs) = cons_byte (pair (value c) (value d)) (decode cs)

value-digit : (n : ℕ) → n < 16 → value (digit n) ≡ some n
unfolding value digit
value-digit n h = ground arith

-- Decoding undoes encoding on every sequence of bytes.
pub decode-encode : (bs : Bytes) → AreBytes bs → decode (encode bs) ≡ bs
unfolding decode encode pair
decode-encode [] h = refl
decode-encode (b ∷ bs) h =
    ground (arith, value-digit (b / 16), value-digit (b % 16), decode-encode bs h.1)

-- Encoding loses nothing.
pub encode-injective : (xs ys : Bytes) → AreBytes xs → AreBytes ys → encode xs ≡ encode ys → xs ≡ ys
encode-injective xs ys hx hy e = sym (decode-encode xs hx) ∙ ap decode e ∙ decode-encode ys hy

pub length-encode : (bs : Bytes) → length (encode bs) ≡ 2 * length bs
unfolding encode
length-encode [] = refl
length-encode (b ∷ bs) = omega (arith, length-encode bs)
