-- ===== src/Processor/Config.antt =====
-- server/processor/main.go: the configuration. A duration is an int64 of nanoseconds.
use facto.Base.{
  ℕ, suc, ◌-◌, ◌*◌, ◌%◌, ◌^◌, ◌≤◌, ◌<◌, ◌≡◌, ◌∙◌, ap, arith, List, [], ◌∷◌, Option, none, some, ltb,
  if◌then◌else◌,
}
use facto.Base.Int.{ℤ, pos, negsuc}
use facto.Go.Text.{Bytes, codes}
use facto.Go.Strconv.{atoi, itoa, int_limit}
use facto.Go.Env.{Env, text_or, int_or, int_or-itoa, int_or-refused}

pub record Config : Type 0 where
  pub nats_url : Bytes
  pub scylla_hosts : List Bytes
  pub batch_size : ℤ
  pub flush_interval : ℤ
  pub metrics_port : ℤ

-- The int64 with the bits of `n`, below 2^64.
unfoldable pub to_int64 : ℕ → ℤ
to_int64 n = if ltb n int_limit then pos n else negsuc (2 ^ 64 - n - 1)

-- `time.Duration(ms) * time.Millisecond`, which wraps around.
unfoldable pub milliseconds : ℤ → ℤ
unfolding to_int64
milliseconds (pos n) = to_int64 (n * 1000000 % 2 ^ 64)
milliseconds (negsuc n) = to_int64 ((2 ^ 64 - suc n * 1000000 % 2 ^ 64) % 2 ^ 64)

unfoldable pub load_config : Env → Config
unfolding milliseconds
load_config env = record {
  nats_url = text_or (codes "nats://localhost:4222") (env (codes "NATS_URL"));
  scylla_hosts = text_or (codes "localhost:9042") (env (codes "SCYLLA_HOSTS")) ∷ [];
  batch_size = int_or (pos 1000) (env (codes "BATCH_SIZE"));
  flush_interval = milliseconds (int_or (pos 1000) (env (codes "FLUSH_INTERVAL_MS")));
  metrics_port = int_or (pos 8081) (env (codes "METRICS_PORT"));
}

milliseconds-pos : (n : ℕ) → n ≤ 9223372036854 → milliseconds (pos n) ≡ pos (n * 1000000)
unfolding milliseconds to_int64
milliseconds-pos n h = ground arith

-- With the batch size, the flush interval and the port of the metrics set to numbers in decimal that an
-- int holds, the configuration has these numbers, the interval in nanoseconds, if it is at most
-- 9223372036854 milliseconds, past which it would wrap around.
pub load_config-itoa :
    (env : Env) (size interval port : ℕ)
    → env (codes "BATCH_SIZE") ≡ itoa size
    → env (codes "FLUSH_INTERVAL_MS") ≡ itoa interval
    → env (codes "METRICS_PORT") ≡ itoa port
    → size < int_limit
    → interval ≤ 9223372036854
    → port < int_limit
    → ((load_config env).batch_size ≡ pos size)
      × ((load_config env).flush_interval ≡ pos (interval * 1000000))
      × ((load_config env).metrics_port ≡ pos port)
unfolding load_config
load_config-itoa env size interval port x y z a b c = (
  ap (int_or (pos 1000)) x ∙ int_or-itoa (pos 1000) size a,
  ap (λ s. milliseconds (int_or (pos 1000) s)) y
      ∙ ap milliseconds (int_or-itoa (pos 1000) interval (omega (arith, b)))
      ∙ milliseconds-pos interval b,
  ap (int_or (pos 8081)) z ∙ int_or-itoa (pos 8081) port c,
)

-- Settings that are not integers, or not set, leave the defaults: batches of 1000 events, a flush every
-- second, and the port 8081.
pub load_config-refused :
    (env : Env)
    → atoi (env (codes "BATCH_SIZE")) ≡ none
    → atoi (env (codes "FLUSH_INTERVAL_MS")) ≡ none
    → atoi (env (codes "METRICS_PORT")) ≡ none
    → ((load_config env).batch_size ≡ pos 1000)
      × ((load_config env).flush_interval ≡ pos 1000000000)
      × ((load_config env).metrics_port ≡ pos 8081)
unfolding load_config
load_config-refused env x y z = (
  int_or-refused (pos 1000) _ x,
  ap milliseconds (int_or-refused (pos 1000) _ y) ∙ milliseconds-pos 1000 (omega arith),
  int_or-refused (pos 8081) _ z,
)

-- The text of a setting: a number in decimal below a limit, or nothing that Atoi reads.
abbrev pub IsSetting : Bytes → ℕ → Option ℕ → Type 0
IsSetting s limit none = atoi s ≡ none
IsSetting s limit (some n) = (s ≡ itoa n) × (n < limit)

abbrev pub value_or : ℕ → Option ℕ → ℕ
value_or default none = default
value_or default (some n) = n

IsSetting-below :
    (s : Bytes) (n limit : ℕ) (o : Option ℕ)
    → n < limit
    → IsSetting s limit o
    → value_or n o < limit
IsSetting-below s n limit none b h = b
IsSetting-below s n limit (some m) b h = h.1

int_or-setting :
    (default limit : ℕ) (s : Bytes) (o : Option ℕ)
    → limit ≤ int_limit
    → IsSetting s limit o
    → int_or (pos default) s ≡ pos (value_or default o)
int_or-setting default limit s none l h = int_or-refused (pos default) s h
int_or-setting default limit s (some n) l (e, b) =
    ap (int_or (pos default)) e ∙ int_or-itoa (pos default) n (omega (arith, b, l))

-- Each of the three numbers is set on its own: to a number in decimal that an int holds, an interval of at
-- most 9223372036854 milliseconds, or to what is no integer, or not at all. The configuration then has the
-- numbers that are set, the interval in nanoseconds, and for the others the defaults: batches of 1000 events,
-- a flush every 1000 milliseconds, and the port 8081.
pub load_config-settings :
    (env : Env) (size interval port : Option ℕ)
    → IsSetting (env (codes "BATCH_SIZE")) int_limit size
    → IsSetting (env (codes "FLUSH_INTERVAL_MS")) 9223372036855 interval
    → IsSetting (env (codes "METRICS_PORT")) int_limit port
    → ((load_config env).batch_size ≡ pos (value_or 1000 size))
      × ((load_config env).flush_interval ≡ pos (value_or 1000 interval * 1000000))
      × ((load_config env).metrics_port ≡ pos (value_or 8081 port))
unfolding load_config
load_config-settings env size interval port x y z =
    let below =
      IsSetting-below (env (codes "FLUSH_INTERVAL_MS")) 1000 9223372036855 interval (omega arith)
        y in
    (
      int_or-setting 1000 int_limit _ size (omega arith) x,
      ap milliseconds (int_or-setting 1000 9223372036855 _ interval (omega arith) y)
          ∙ milliseconds-pos (value_or 1000 interval) (omega (arith, below)),
      int_or-setting 8081 int_limit _ port (omega arith) z,
    )
