-- ===== src/Tests/Plain.antt =====
-- A plain event through the table of sessions of server/processor/storage.go and the checks of
-- server/api/handlers.go.
use facto.Base.{ℕ, arith, List, [], ◌∷◌, map, eq_bytes, ◌≡◌, ◌-◌, ◌%◌, refl, none}
use facto.Base.Int.{pos}
use facto.Go.Text.{Bytes, codes}
use facto.Go.Hex
use facto.Go.Time.{Time}
use facto.Processor.Event.{FactoEvent}
use facto.Processor.Storage.{SessionRow, session_row, process}
use facto.Api.Storage.{Rows, get_session_events, scan_session, paginate, event_of_session_row}
use facto.Api.Storage.Stored.{RoundTrips, read_session_row}
use facto.Api.Verify.{verify_hash, verify_signature}
use facto.Pipeline.Verdicts.{IsPlain, as_sent, session-verdicts}
use facto.Pipeline.Sessions.{IsKept, stored_row, IsVerdict, verify_chain-IsVerdict}
use facto.Api.Handlers.{success, bound}
use facto.Api.Chain.{handle_verify_chain, verify_events, check_each, check_links, check_link}
use facto.Tests.Sorting.{insertion}
use facto.Tests.Data.{toy, toy_codec, event_named}
use facto.Tests.Handling.{verifier, linked, answer}

abbrev plain : FactoEvent
plain = record (event_named (codes "ab")) {
  execution_meta = record (event_named (codes "ab")).execution_meta { seed = none };
  started_at = pos 1000000;
  completed_at = pos 2000000;
}

abbrev to_millis : Time → Time
to_millis t = t - t % 1000000

plain-IsPlain : IsPlain to_millis toy_codec plain
plain-IsPlain = record {
  parent = λ e. cc e;
  model = λ e. cc e;
  temperature = refl;
  seed = refl;
  tools = refl;
  started = record { millis = 1; is = refl };
  completed = record { millis = 2; is = refl };
}

plain-RoundTrips : RoundTrips toy_codec plain
plain-RoundTrips = record { input = refl; output = refl; tools = refl; empty_slice = refl }

session-verdicts_example :
    (verify_hash verifier (
        event_of_session_row toy_codec
          (read_session_row to_millis toy_codec plain (session_row 5 (process toy_codec plain))))
      ≡ verify_hash verifier (as_sent plain))
    × (verify_signature verifier (
          event_of_session_row toy_codec
            (read_session_row to_millis toy_codec plain (session_row 5 (process toy_codec plain))))
        ≡ verify_signature verifier (as_sent plain))
session-verdicts_example =
    session-verdicts to_millis (λ t. refl) toy_codec plain verifier 5 plain-RoundTrips plain-IsPlain

-- A plain event that is linked to nothing before it.
abbrev linked_plain : FactoEvent
linked_plain = record plain { facto_id = linked.facto_id; proof = linked.proof }

linked_plain-IsKept : IsKept to_millis (λ t. refl) toy_codec linked_plain
linked_plain-IsKept = record {
  json = record { input = refl; output = refl; tools = refl; empty_slice = refl };
  plain = record {
    parent = λ e. cc e;
    model = λ e. cc e;
    temperature = refl;
    seed = refl;
    tools = refl;
    started = record { millis = 1; is = refl };
    completed = record { millis = 2; is = refl };
  };
}

abbrev written : List (Time × FactoEvent)
written = (100, linked_plain) ∷ []

abbrev written_rows : Bytes → ℕ → Rows SessionRow
written_rows session_id limit = record {
  rows = map (stored_row to_millis (λ t. refl) toy_codec) written;
  close = none;
}

verify_chain-written :
    handle_verify_chain toy verifier
      (insertion (λ e. e.completed_at))
      toy_codec
      written_rows
      (bound (codes "s"))
    ≡ success answer
unfolding handle_verify_chain get_session_events scan_session paginate verify_events check_each
    check_links check_link eq_bytes session_row process verify_hash verify_signature Hex.encode
    Hex.digit facto.Go.Base64.decode facto.Go.Base64.decode_from
verify_chain-written = refl

verify_chain-IsVerdict_example :
    IsVerdict to_millis
      (λ t. refl)
      toy_codec
      verifier
      toy
      (insertion (λ e. e.completed_at))
      written_rows
      (codes "s")
      written
      answer
verify_chain-IsVerdict_example =
    verify_chain-IsVerdict to_millis (λ t. refl) toy_codec verifier toy
      (insertion (λ e. e.completed_at)) written_rows (codes "s") written answer
      (linked_plain-IsKept, tt) (omega arith) refl refl verify_chain-written
