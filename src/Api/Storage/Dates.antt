-- ===== src/Api/Storage/Dates.antt =====
-- getDateRange of server/api/storage.go: the days from the one of `start` to the one of `end`.
use facto.Base.{
  ℕ, zero, suc, ◌+◌, ◌*◌, ◌/◌, ◌<◌, ◌≡◌, refl, none, some, arith, ◌∙◌, ap, get_elem?, ltb,
  if◌then◌else◌, Bool-cases, inl, inr, ltb→lt, lt→ltb,
}
use facto.Go.Time.{Time, day, truncate_day}
use facto.Api.Storage.{dates_from, get_date_range}

dates_from-at :
    (fuel i : ℕ) (current last : Time)
    → last < current + fuel * day
    → get_elem? (dates_from fuel current last) i
      ≡ (if ltb last (current + i * day) then none else some (current + i * day))
unfolding dates_from
dates_from-at zero i current last h = rw (lt→ltb last (current + i * day) (omega arith)) refl
dates_from-at (suc fuel) zero current last h = ground arith
dates_from-at (suc fuel) (suc i) current last h = elim (Bool-cases (ltb last current)) [
  | inl t ↦ rw (t, lt→ltb last (current + suc i * day) (omega (arith, ltb→lt _ _ t))) refl
  | inr t ↦
      let e : current + day + i * day ≡ current + suc i * day = omega arith in
      rw t (
        dates_from-at fuel i (current + day) last (omega arith)
        ∙ ap (λ x. if ltb last x then none else some x) e)
]

-- The dates that GetEvents queries are the midnights from that of the start time to that of the end
-- time, a day apart, and no other: the date number `i` is the start's plus `i` days if that is not after
-- the end's.
pub get_date_range-at :
    (start last : Time) (i : ℕ)
    → let date = truncate_day start + i * day in
      get_elem? (get_date_range start last) i
      ≡ (if ltb (truncate_day last) date then none else some date)
unfolding get_date_range
get_date_range-at start last i =
    dates_from-at (suc (truncate_day last / day)) i (truncate_day start) (truncate_day last)
      (omega arith)
