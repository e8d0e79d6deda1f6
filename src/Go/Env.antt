-- ===== src/Go/Env.antt =====
-- The environment of a process, as os.Getenv shows it, and how both services read their settings.
use facto.Base.{ℕ, ◌≡◌, ◌≢◌, refl, ◌<◌, ap, [], ◌∷◌, Option, none, some}
use facto.Base.Int.{ℤ, pos}
use facto.Go.Text.{Bytes}
use facto.Go.Strconv.{atoi, itoa, itoa-nonempty, int_limit, atoi-itoa}

-- The value of a variable, which is empty if it is not set.
abbrev pub Env : Type 0
Env = Bytes → Bytes

-- `if s == "" { s = default }`
abbrev pub text_or : Bytes → Bytes → Bytes
text_or default [] = default
text_or default (c ∷ cs) = c ∷ cs

abbrev pub or_default : ℤ → Option ℤ → ℤ
or_default default none = default
or_default default (some n) = n

-- `if s != "" { if parsed, err := strconv.Atoi(s); err == nil { n = parsed } }`
unfoldable pub int_or : ℤ → Bytes → ℤ
int_or default [] = default
int_or default (c ∷ cs) = or_default default (atoi (c ∷ cs))

int_or-text : (default : ℤ) (s : Bytes) (n : ℤ) → atoi s ≡ some n → s ≢ [] → int_or default s ≡ n
unfolding int_or
int_or-text default [] n e h = absurd (h refl)
int_or-text default (c ∷ cs) n e h = ap (or_default default) e

-- A number in decimal is taken.
pub int_or-itoa : (default : ℤ) (n : ℕ) → n < int_limit → int_or default (itoa n) ≡ pos n
int_or-itoa default n b = int_or-text default (itoa n) (pos n) (atoi-itoa n b) (itoa-nonempty n)

-- What is not a number is passed over.
pub int_or-refused : (default : ℤ) (s : Bytes) → atoi s ≡ none → int_or default s ≡ default
unfolding int_or
int_or-refused default [] e = refl
int_or-refused default (c ∷ cs) e = ap (or_default default) e
