-- ===== src/Go/Time.antt =====
-- package time: an instant is the number of nanoseconds since the zero Time, 1 January of the year 1 in
-- UTC, from which Truncate counts too. Instants before it are not modelled.
use facto.Base.{ℕ, suc, ◌+◌, ◌-◌, ◌%◌, ltb, if◌then◌else◌}
use facto.Base.Int.{ℤ, pos, negsuc}

abbrev pub Time : Type 0
Time = ℕ

-- 24 * time.Hour
abbrev pub day : ℕ
day = 86400000000000

-- The Unix epoch.
abbrev pub epoch : ℕ
epoch = 62135596800000000000

-- t.UTC().Truncate(24 * time.Hour)
unfoldable pub truncate_day : Time → Time
truncate_day t = t - t % day

-- time.Unix(0, ns), for an int64 `ns`
unfoldable pub from_unix_nano : ℤ → Time
from_unix_nano (pos n) = epoch + n
from_unix_nano (negsuc n) = epoch - suc n

-- t.UnixNano()
unfoldable pub unix_nano : Time → ℤ
unix_nano t = if ltb t epoch then negsuc (epoch - t - 1) else pos (t - epoch)
