-- ===== src/Go/Strconv.antt =====
-- package strconv: `Atoi` and `Itoa`, for an int of 64 bits.
use facto.Base.{
  ◌≢◌, ℕ, zero, suc, ◌+◌, ◌-◌, ◌*◌, ◌/◌, ◌%◌, ◌≤◌, ◌<◌, ◌≡◌, refl, ◌∙◌, sym, ap, arith, [], ◌∷◌,
  ◌++◌, Option, none, some, false, ◌&&◌, ◌==◌, ltb, leb, if◌then◌else◌, Bool-cases, Option-cases,
  inl, inr, ltb→lt, ltb→le, lt→ltb,
}
use facto.Base.Int.{ℤ, pos, negsuc}
use facto.Go.Text.{Bytes}

-- 2^63
abbrev pub int_limit : ℕ
int_limit = 9223372036854775808

unfoldable pub digit_value : ℕ → Option ℕ
digit_value c = if leb 48 c && leb c 57 then some (c - 48) else none

abbrev pub then_digit : (ℕ → Option ℕ) → Option ℕ → Option ℕ
then_digit next none = none
then_digit next (some d) = next d

-- The number read so far, and the rest.
unfoldable pub digits : ℕ → Bytes → Option ℕ
unfolding digit_value
digits n [] = some n
digits n (c ∷ cs) = then_digit (λ d. digits (n * 10 + d) cs) (digit_value c)

abbrev magnitude : Bytes → Option ℕ
magnitude [] = none
magnitude (c ∷ cs) = digits 0 (c ∷ cs)

abbrev positive : Option ℕ → Option ℤ
positive none = none
positive (some n) = if ltb n int_limit then some (pos n) else none

abbrev negative : Option ℕ → Option ℤ
negative none = none
negative (some zero) = some (pos 0)
negative (some (suc n)) = if ltb n int_limit then some (negsuc n) else none

-- `Atoi`; `none` is an error.
unfoldable pub atoi : Bytes → Option ℤ
unfolding digits
atoi [] = none
atoi (c ∷ cs) =
    if c == 43
    then positive (magnitude cs)
    else if c == 45
    then negative (magnitude cs)
    else positive (magnitude (c ∷ cs))

-- As many rounds as the number, and one more.
unfoldable pub itoa_from : ℕ → ℕ → Bytes
itoa_from zero n = []
itoa_from (suc fuel) n =
    let rest = itoa_from fuel (n / 10) in
    if ltb n 10 then (48 + n) ∷ [] else rest ++ (48 + n % 10) ∷ []

-- `Itoa` of a number that is not negative.
unfoldable pub itoa : ℕ → Bytes
unfolding itoa_from
itoa n = itoa_from (suc n) n

digit_value-digit : (d : ℕ) → d < 10 → digit_value (48 + d) ≡ some d
unfolding digit_value
digit_value-digit d h = ground arith

digits-append :
    (n m d : ℕ) (cs : Bytes)
    → d < 10
    → digits n cs ≡ some m
    → digits n (cs ++ (48 + d) ∷ []) ≡ some (m * 10 + d)
unfolding digits
digits-append n m d [] h e =
    let same : n ≡ m = cc e in rw (digits, digit_value-digit d h, same) refl
digits-append n m d (c ∷ cs) h e = elim (Option-cases (digit_value c)) [
  | inl x ↦ absurd (cc (sym (ap (then_digit (λ v. digits (n * 10 + v) cs)) x) ∙ e))
  | inr (v, x) ↦
      ap (then_digit (λ u. digits (n * 10 + u) (cs ++ (48 + d) ∷ []))) x
      ∙ digits-append (n * 10 + v) m d cs h
          (sym (ap (then_digit (λ u. digits (n * 10 + u) cs)) x) ∙ e)
]

-- The digits of a number start with a digit.
itoa_from-cons :
    (fuel n : ℕ) → n < fuel → (c : ℕ) × (cs : Bytes) × (itoa_from fuel n ≡ c ∷ cs) × (48 ≤ c)
unfolding itoa_from
itoa_from-cons zero n h = absurd (omega arith)
itoa_from-cons (suc fuel) n h = elim (Bool-cases (ltb n 10)) [
  | inl t ↦ (48 + n, [], rw t refl, omega arith)
  | inr f ↦
      let (c, cs, e, l) = itoa_from-cons fuel (n / 10) (omega (arith, ltb→le _ _ f)) in
      (c, cs ++ (48 + n % 10) ∷ [], rw (f, e) refl, l)
]

digits-itoa_from : (fuel n : ℕ) → n < fuel → digits 0 (itoa_from fuel n) ≡ some n
unfolding itoa_from digits
digits-itoa_from zero n h = absurd (omega arith)
digits-itoa_from (suc fuel) n h = elim (Bool-cases (ltb n 10)) [
  | inl t ↦ rw t (digits-append 0 0 n [] (ltb→lt _ _ t) refl ∙ ap some (omega arith))
  | inr f ↦ rw f (
      digits-append 0 (n / 10) (n % 10) (itoa_from fuel (n / 10)) (omega arith)
        (digits-itoa_from fuel (n / 10) (omega (arith, ltb→le _ _ f)))
      ∙ ap some (omega arith))
]

atoi-digits :
    (c : ℕ) (cs : Bytes) (n : ℕ)
    → 48 ≤ c
    → digits 0 (c ∷ cs) ≡ some n
    → n < int_limit
    → atoi (c ∷ cs) ≡ some (pos n)
unfolding atoi
atoi-digits c cs n l e b =
    let plus : (c == 43) ≡ false = ground arith in
    let minus : (c == 45) ≡ false = ground arith in rw (plus, minus, e, lt→ltb n int_limit b) refl

-- Atoi reads back what Itoa writes.
pub atoi-itoa : (n : ℕ) → n < int_limit → atoi (itoa n) ≡ some (pos n)
unfolding itoa
atoi-itoa n b =
    let (c, cs, e, l) = itoa_from-cons (suc n) n (omega arith) in
    ap atoi e
    ∙ atoi-digits c cs n l (ap (digits 0) (sym e) ∙ digits-itoa_from (suc n) n (omega arith)) b

pub itoa-nonempty : (n : ℕ) → itoa n ≢ []
unfolding itoa
itoa-nonempty n h = let (c, cs, e, l) = itoa_from-cons (suc n) n (omega arith) in cc (e, h)
