-- ===== src/Tests/Pages.antt =====
-- Runs of the queries of server/api/storage.go.
use facto.Base.{
  ℕ, ◌≡◌, refl, ◌+◌, ◌*◌, ◌≤◌, arith, [], ◌∷◌, map, Option, some, none, length, take, ltb,
  if◌then◌else◌, get_elem?, ℕ_discrete, dec_lt,
}
use facto.Go.Text.{Bytes, codes}
use facto.Go.Base64
use facto.Go.Time.{Time, truncate_day, day}
use facto.Processor.Storage.{EventRow, SessionRow, event_row, session_row, process}
use facto.Api.Storage.{
  Rows, ok, get_events, get_date_range, dates_from, event_of_row, scan_dates, scan_events, paginate,
}
use facto.Api.Storage.Found.{IsClean, rows_of, on_date, get_events-found}
use facto.Api.Storage.Dates.{get_date_range-at}
use facto.Api.Storage.Pages.{get_events-next_cursor}
use facto.Tests.Data.{toy_codec, event_named}

abbrev row : EventRow
row = event_row 100 (process toy_codec (event_named (codes "ab")))

abbrev other : EventRow
other = event_row 100 (process toy_codec (event_named (codes "cd")))

-- Two rows for any date.
abbrev two_rows : Bytes → Time → Time → Time → ℕ → Rows EventRow
two_rows agent date start last limit = record { rows = row ∷ other ∷ []; close = none }

get_events-run :
    get_events toy_codec two_rows (codes "agent") 0 5 1 []
    ≡ ok (event_of_row toy_codec row ∷ [], none)
unfolding get_events scan_dates scan_events get_date_range dates_from truncate_day paginate
    ℕ_discrete dec_lt
get_events-run = refl

abbrev no_cursor : Option Bytes
no_cursor = none

get_events-next_cursor_example : (length (event_of_row toy_codec row ∷ []) ≤ 1) × (no_cursor ≡ none)
get_events-next_cursor_example =
    get_events-next_cursor toy_codec two_rows (codes "agent") 0 5 1 []
      (event_of_row toy_codec row ∷ []) none (omega arith) get_events-run

get_date_range-second : get_elem? (get_date_range 5 (2 * day)) 1 ≡ (
    if ltb (truncate_day (2 * day)) (truncate_day 5 + 1 * day)
    then none
    else some (truncate_day 5 + 1 * day))
get_date_range-second = get_date_range-at 5 (2 * day) 1

abbrev session_rows : Bytes → ℕ → Rows SessionRow
session_rows session_id limit = record {
  rows =
      session_row 100 (process toy_codec (event_named (codes "ab")))
      ∷ session_row 100 (process toy_codec (event_named (codes "cd")))
      ∷ [];
  close = none;
}

two_rows-IsClean : IsClean (on_date two_rows 0 5 1) (codes "agent") 0
unfolding event_row process
two_rows-IsClean = (refl, (refl, (refl, tt)))

one_date : get_date_range 0 5 ≡ 0 ∷ []
unfolding get_date_range dates_from truncate_day
one_date = refl

get_events-found_example :
    get_events toy_codec two_rows (codes "agent") 0 5 1 []
    ≡ ok (
      map
          (event_of_row toy_codec)
          (take 1 (rows_of (on_date two_rows 0 5 1) (codes "agent") (get_date_range 0 5))),
      none,
    )
get_events-found_example =
    get_events-found toy_codec two_rows (codes "agent") 0 5 1 [] (omega arith)
      (rw one_date (two_rows-IsClean, tt))
