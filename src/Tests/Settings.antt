-- ===== src/Tests/Settings.antt =====
-- Runs of loadConfig of server/processor/main.go and server/api/main.go.
use facto.Base.{◌≡◌, ◌*◌, refl, arith, some, none, if◌then◌else◌, eq_bytes, ℕ_discrete}
use facto.Base.Int.{pos, negsuc}
use facto.Go.Text.{codes}
use facto.Go.Strconv.{atoi, itoa, itoa_from, digits, digit_value}
use facto.Go.Env.{Env, int_or}
use facto.Processor.Config.{load_config, milliseconds, to_int64, load_config-settings}
use facto.Api.Config

atoi-signs :
    (atoi (codes "-12") ≡ some (negsuc 11))
    × (atoi (codes "+7") ≡ some (pos 7))
    × (atoi (codes "1_0") ≡ none)
unfolding atoi digits digit_value ℕ_discrete
atoi-signs = (refl, refl, refl)

atoi-range :
    (atoi (codes "9223372036854775808") ≡ none)
    × (atoi (codes "-9223372036854775808") ≡ some (negsuc 9223372036854775807))
unfolding atoi digits digit_value ℕ_discrete
atoi-range = (refl, refl)

-- An interval past the limit wraps around.
milliseconds-wraps : milliseconds (pos 9223372036855) ≡ negsuc 9223372036854551615
unfolding milliseconds to_int64
milliseconds-wraps = refl

abbrev set : Env
set v =
    if eq_bytes v (codes "BATCH_SIZE")
    then codes "50"
    else if eq_bytes v (codes "FLUSH_INTERVAL_MS")
    then codes "200"
    else codes "9000"

-- Nothing is a number here.
abbrev words : Env
words v = codes "many"

-- The interval is no number, the others are.
abbrev mixed : Env
mixed v = if eq_bytes v (codes "FLUSH_INTERVAL_MS") then codes "often" else set v

load_config-settings_example :
    ((load_config mixed).batch_size ≡ pos 50)
    × ((load_config mixed).flush_interval ≡ pos (1000 * 1000000))
    × ((load_config mixed).metrics_port ≡ pos 9000)
unfolding eq_bytes itoa itoa_from atoi digits digit_value ℕ_discrete
load_config-settings_example =
    load_config-settings mixed (some 50) none (some 9000) (refl, omega arith) refl
      (refl, omega arith)

api_port : (Config.load_config words).port ≡ pos 8082
unfolding Config.load_config int_or atoi digits digit_value ℕ_discrete
api_port = refl
