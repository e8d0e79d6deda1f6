-- ===== src/Tests/Handling.antt =====
-- Runs of the handlers of server/api/handlers.go.
use facto.Base.{
  ℕ, ◌≡◌, inl, inr, ◌-◌, ◌%◌, ◌++◌, refl, arith, [], ◌∷◌, some, none, true, false, ℕ_discrete,
}
use facto.Base.Int.{pos}
use facto.Go.Text.{Bytes, codes}
use facto.Go.Json.{Fields, end, field, int, obj}
use facto.Go.Hex
use facto.Go.Time.{Time, truncate_day}
use facto.Processor.Storage.{EventRow, SessionRow, event_row, session_row, process}
use facto.Processor.Event.{FactoEvent}
use facto.Api.Event.{EventResponse}
use facto.Api.Storage.{
  Rows, ok, get_events, get_session_events, scan_session, paginate, event_of_row,
  event_of_session_row, build_event_response, scan_dates, scan_events, get_date_range, dates_from,
}
use facto.Api.Verify.{Verifier, verify_hash, verify_signature}
use facto.Api.Verify.Binding.{with_uncovered, checks-uncovered}
use facto.Api.Handlers.{
  Bound, EventsQuery, bound, success, panicked, handle_get_events, limit_or_default,
}
use facto.Api.Handlers.{handle_get_session_events}
use facto.Api.Chain.{ChainVerifyResponse, handle_verify_chain, zero_hash}
use facto.Api.Chain.Valid.{verify_chain-panicked}
use facto.Tests.Data.{toy, toy_codec, event_named}
use facto.Tests.Sorting.{insertion}

abbrev pub verifier : Verifier
verifier = record { sha3 = toy; marshal = λ v. codes "{}"; ed25519_verify = λ k m s. true }

-- The hash that every event has under this JSON.
abbrev its_hash : Bytes
its_hash = Hex.encode (toy.sum (codes "{}"))

abbrev row : SessionRow
row = session_row 100 (process toy_codec (event_named its_hash))

abbrev pub one_row : Bytes → ℕ → Rows SessionRow
one_row session_id limit = record { rows = row ∷ []; close = none }

abbrev pub event : EventResponse
event = event_of_session_row toy_codec row

pub one_row-run : get_session_events toy_codec one_row (codes "s") 10000 [] ≡ ok (event ∷ [], none)
unfolding get_session_events scan_session paginate
one_row-run = refl

checks-uncovered_example :
    (verify_hash verifier (with_uncovered none (some (pos 7)) (codes "go") none event)
      ≡ verify_hash verifier event)
    × (verify_signature verifier (with_uncovered none (some (pos 7)) (codes "go") none event)
        ≡ verify_signature verifier event)
checks-uncovered_example = checks-uncovered verifier event none (some (pos 7)) (codes "go") none

abbrev unsorted : Fields
unsorted =
    field (codes "b") (obj (field (codes "d") (int (pos 1)) end))
      (field (codes "a") (int (pos 2)) end)

no_previous-panics :
    handle_verify_chain toy verifier
      (insertion (λ e. e.completed_at))
      toy_codec
      one_row
      (bound (codes "s"))
    ≡ panicked
unfolding event_of_session_row build_event_response session_row process
no_previous-panics =
    (verify_chain-panicked verifier toy (insertion (λ e. e.completed_at)) toy_codec one_row
        (codes "s") event [] none one_row-run).1
      (inl ((λ e. cc e), inr (omega arith)))

-- With the zero hash in the first event the chain holds, though its signature does not.
abbrev pub linked : FactoEvent
linked = record (event_named its_hash) {
  proof = record { signature = []; public_key = []; prev_hash = zero_hash; event_hash = its_hash };
}

abbrev linked_rows : Bytes → ℕ → Rows SessionRow
linked_rows session_id limit = record {
  rows = session_row 100 (process toy_codec linked) ∷ [];
  close = none;
}

abbrev pub answer : ChainVerifyResponse
answer = record {
  valid = false;
  event_count = 1;
  checks = record {
    all_hashes_valid = true;
    all_signatures_valid = false;
    chain_integrity_valid = true;
  };
  first_event = its_hash;
  last_event = its_hash;
  session_hash = Hex.encode (toy.sum its_hash);
  errors = (codes "Signature invalid for event: " ++ its_hash) ∷ [];
}

abbrev millis : Time → Time
millis t = t - t % 1000000

abbrev no_rows : Bytes → Time → Time → Time → ℕ → Rows EventRow
no_rows agent date start last limit = record {
  rows = event_row 100 (process toy_codec (event_named (codes "ab"))) ∷ [];
  close = none;
}

abbrev found : EventResponse
found = event_of_row toy_codec (event_row 100 (process toy_codec (event_named (codes "ab"))))

abbrev request : Bound EventsQuery
request =
    bound (record { agent_id = codes "agent"; start = []; end = []; limit = pos 1; cursor = [] })

handle_get_events-run :
    handle_get_events toy_codec (λ t. some 5) no_rows request ≡ success (found ∷ [], none)
unfolding handle_get_events limit_or_default get_events scan_dates scan_events get_date_range
    dates_from truncate_day paginate ℕ_discrete
handle_get_events-run = refl

handle_get_session_events-run :
    handle_get_session_events toy_codec one_row (codes "s") (record { limit = pos 5; cursor = [] })
    ≡ success (event ∷ [], none)
unfolding handle_get_session_events limit_or_default get_session_events scan_session paginate
    ℕ_discrete
handle_get_session_events-run = refl
