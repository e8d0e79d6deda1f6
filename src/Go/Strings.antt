-- ===== src/Go/Strings.antt =====
-- The order of Go's strings, by which sort.Strings sorts: lexicographic on bytes.
use facto.Base.{Bool, true, false, [], ◌∷◌, ltb, ◌==◌, if◌then◌else◌, ◌≡◌, refl, arith}
use facto.Go.Text.{Bytes}

unfoldable pub lt_bytes : Bytes → Bytes → Bool
lt_bytes [] [] = false
lt_bytes [] (y ∷ ys) = true
lt_bytes (x ∷ xs) [] = false
lt_bytes (x ∷ xs) (y ∷ ys) =
    let rest = lt_bytes xs ys in if ltb x y then true else if x == y then rest else false

pub lt_bytes_irrefl : (s : Bytes) → lt_bytes s s ≡ false
unfolding lt_bytes
lt_bytes_irrefl [] = refl
lt_bytes_irrefl (x ∷ xs) = ground (arith, lt_bytes_irrefl xs)

pub lt_bytes-asym : (s t : Bytes) → lt_bytes s t ≡ true → lt_bytes t s ≡ false
unfolding lt_bytes
lt_bytes-asym [] [] a = refl
lt_bytes-asym [] (y ∷ ys) a = refl
lt_bytes-asym (x ∷ xs) [] a = absurd (cc a)
lt_bytes-asym (x ∷ xs) (y ∷ ys) a = ground (arith, lt_bytes-asym xs ys)

-- What is not less than a second string, which is not less than a third, is not less than the third.
pub lt_bytes-below :
    (s t u : Bytes) → lt_bytes s t ≡ false → lt_bytes t u ≡ false → lt_bytes s u ≡ false
unfolding lt_bytes
lt_bytes-below [] [] u a b = b
lt_bytes-below [] (y ∷ ys) u a b = absurd (cc a)
lt_bytes-below (x ∷ xs) t [] a b = refl
lt_bytes-below (x ∷ xs) [] (z ∷ zs) a b = absurd (cc b)
lt_bytes-below (x ∷ xs) (y ∷ ys) (z ∷ zs) a b = ground (arith, lt_bytes-below xs ys zs)
