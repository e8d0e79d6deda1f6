-- ===== src/Go/Base64/RoundTrip.antt =====
-- encoding/base64: decoding after encoding.
use facto.Base.{
  ℕ, ◌+◌, ◌*◌, ◌/◌, ◌%◌, [], ◌∷◌, ◌==◌, some, ◌≡◌, refl, arith, ap, ap₂, ◌∙◌, ◌<◌, false,
  ℕ_discrete,
}
use facto.Go.Text.{Bytes, AreBytes}
use facto.Go.Base64.{symbol, encode, value, strip, pack, joined, last_bytes, decode_from, decode}

value-symbol : (n : ℕ) → n < 64 → value (symbol n) ≡ some n
unfolding value symbol
value-symbol n h = ground arith

symbol-ne-pad : (n : ℕ) → n < 64 → (symbol n == 61) ≡ false
unfolding symbol ℕ_discrete
symbol-ne-pad n h = ground arith

strip-symbol : (n : ℕ) (cs : Bytes) → n < 64 → strip (symbol n ∷ cs) ≡ symbol n ∷ strip cs
unfolding symbol strip
strip-symbol n cs h = ground arith

strip-symbols :
    (m n : ℕ) (cs : Bytes)
    → m < 64
    → n < 64
    → strip cs ≡ cs
    → strip (symbol m ∷ symbol n ∷ cs) ≡ symbol m ∷ symbol n ∷ cs
strip-symbols m n cs hm hn h =
    strip-symbol m (symbol n ∷ cs) hm
    ∙ ap (λ l. symbol m ∷ l) (strip-symbol n cs hn ∙ ap (λ l. symbol n ∷ l) h)

strip-pad : (strip (61 ∷ []) ≡ 61 ∷ []) × (strip (61 ∷ 61 ∷ []) ≡ 61 ∷ 61 ∷ [])
unfolding strip ℕ_discrete
strip-pad = (refl, refl)

strip-nil : strip [] ≡ []
unfolding strip
strip-nil = refl

strip-encode : (bs : Bytes) → AreBytes bs → strip (encode bs) ≡ encode bs
unfolding encode
strip-encode [] h = strip-nil
strip-encode (a ∷ []) h =
    strip-symbols (a / 4) (a % 4 * 16) _ (omega (arith, h.0)) (omega arith) strip-pad.1
strip-encode (a ∷ b ∷ []) h =
    strip-symbols (a / 4) (a % 4 * 16 + b / 16) _ (omega (arith, h.0)) (omega (arith, h.1.0))
      (strip-symbol (b % 16 * 4) _ (omega arith) ∙ ap (λ l. symbol (b % 16 * 4) ∷ l) strip-pad.0)
strip-encode (a ∷ b ∷ c ∷ rest) h =
    strip-symbols (a / 4) (a % 4 * 16 + b / 16) _ (omega (arith, h.0)) (omega (arith, h.1.0)) (
      strip-symbols (b % 16 * 4 + c / 64) (c % 64) _ (omega (arith, h.1.1.0)) (omega arith)
        (strip-encode rest h.1.1.1))

last_one :
    (a : ℕ) → a < 256 → last_bytes (symbol (a / 4)) (symbol (a % 4 * 16)) 61 61 ≡ some (a ∷ [])
unfolding last_bytes pack ℕ_discrete
last_one a h =
    rw (value-symbol (a / 4) (omega arith), value-symbol (a % 4 * 16) (omega arith))
      (ap (λ x. some (x ∷ [])) (omega arith))

last_two :
    (a b : ℕ)
    → a < 256
    → b < 256
    → last_bytes (symbol (a / 4)) (symbol (a % 4 * 16 + b / 16)) (symbol (b % 16 * 4)) 61
      ≡ some (a ∷ b ∷ [])
unfolding last_bytes pack ℕ_discrete
last_two a b ha hb =
    rw
      (
        symbol-ne-pad (b % 16 * 4) (omega arith),
        value-symbol (a / 4) (omega arith),
        value-symbol (a % 4 * 16 + b / 16) (omega arith),
        value-symbol (b % 16 * 4) (omega arith),
      )
      (ap₂ (λ x y. some (x ∷ y ∷ [])) (omega arith) (omega arith))

pack-symbols :
    (a b c : ℕ)
    → a < 256
    → b < 256
    → c < 256
    → pack
        (value (symbol (a / 4)))
        (value (symbol (a % 4 * 16 + b / 16)))
        (value (symbol (b % 16 * 4 + c / 64)))
        (value (symbol (c % 64)))
      ≡ some (a ∷ b ∷ c ∷ [])
unfolding pack
pack-symbols a b c ha hb hc =
    rw
      (
        value-symbol (a / 4) (omega arith),
        value-symbol (a % 4 * 16 + b / 16) (omega arith),
        value-symbol (b % 16 * 4 + c / 64) (omega arith),
        value-symbol (c % 64) (omega arith),
      )
      (ap₂ (λ x y. some (x ∷ y)) (omega arith)
        (ap₂ (λ x y. x ∷ y ∷ []) (omega arith) (omega arith)))

last_three :
    (a b c : ℕ)
    → a < 256
    → b < 256
    → c < 256
    → last_bytes
        (symbol (a / 4))
        (symbol (a % 4 * 16 + b / 16))
        (symbol (b % 16 * 4 + c / 64))
        (symbol (c % 64))
      ≡ some (a ∷ b ∷ c ∷ [])
unfolding last_bytes
last_three a b c ha hb hc = rw (symbol-ne-pad (c % 64) (omega arith)) (pack-symbols a b c ha hb hc)

joined-pack :
    (a b c : ℕ) (bs : Bytes)
    → a < 256
    → b < 256
    → c < 256
    → joined
        (pack
          (value (symbol (a / 4)))
          (value (symbol (a % 4 * 16 + b / 16)))
          (value (symbol (b % 16 * 4 + c / 64)))
          (value (symbol (c % 64))))
        (some bs)
      ≡ some (a ∷ b ∷ c ∷ bs)
unfolding joined
joined-pack a b c bs ha hb hc = rw (pack-symbols a b c ha hb hc) refl

decode_from-encode : (bs : Bytes) → AreBytes bs → decode_from (encode bs) ≡ some bs
unfolding encode decode_from
decode_from-encode [] h = refl
decode_from-encode (a ∷ []) h = last_one a h.0
decode_from-encode (a ∷ b ∷ []) h = last_two a b h.0 h.1.0
decode_from-encode (a ∷ b ∷ c ∷ []) h = last_three a b c h.0 h.1.0 h.1.1.0
decode_from-encode (a ∷ b ∷ c ∷ d ∷ []) h =
    ap (joined _) (decode_from-encode (d ∷ []) h.1.1.1)
    ∙ joined-pack a b c (d ∷ []) h.0 h.1.0 h.1.1.0
decode_from-encode (a ∷ b ∷ c ∷ d ∷ e ∷ []) h =
    ap (joined _) (decode_from-encode (d ∷ e ∷ []) h.1.1.1)
    ∙ joined-pack a b c (d ∷ e ∷ []) h.0 h.1.0 h.1.1.0
decode_from-encode (a ∷ b ∷ c ∷ d ∷ e ∷ f ∷ rest) h =
    ap (joined _) (decode_from-encode (d ∷ e ∷ f ∷ rest) h.1.1.1)
    ∙ joined-pack a b c (d ∷ e ∷ f ∷ rest) h.0 h.1.0 h.1.1.0

-- Decoding undoes encoding.
pub decode-encode : (bs : Bytes) → AreBytes bs → decode (encode bs) ≡ some bs
unfolding decode
decode-encode bs h = ap decode_from (strip-encode bs h) ∙ decode_from-encode bs h
