-- ===== src/Tests/Proving.antt =====
-- A batch of two messages, and the evidence package of server/api/handlers.go for their session.
use facto.Base.{ℕ, ◌≡◌, refl, arith, false, [], ◌∷◌, All, inl, some, none, ℕ_discrete, dec_lt}
use facto.Go.Text.{Bytes, codes}
use facto.Go.Time.{truncate_day}
use facto.Processor.Event.{FactoEvent}
use facto.Processor.Merkle
use facto.Processor.Storage.{SessionRow, event_row, session_row, process}
use facto.Processor.Storage.Batch.{
  MerkleRow, batches, batches_from, rows_from, execute, run, step, wait, start, store_batch,
  store_merkle_root, store_events_batch, store_by_facto_id_batch, store_by_session_batch,
}
use facto.Processor.Consumer.{
  Consumer, Msg, ack, message, running, new_consumer, receive, handle_message, flush, flush_pending,
  accept, finish_batch, after_store, store_succeeded, store_failed,
}
use facto.Processor.Fetching.{
  System, polling, initial, fetch, send, sent_all, received, inner, select, Reach, begin, onward,
}
use facto.Api.Event.{EventResponse}
use facto.Api.Storage.{
  Rows, ok, get_session_events, scan_session, paginate, event_of_session_row, build_event_response,
}
use facto.Api.Handlers.{success, bound}
use facto.Api.Evidence.{EvidencePackageResponse, handle_evidence_package}
use facto.Pipeline.Roots.{ProvesIn, evidence-ProvesIn}
use facto.Tests.Data.{toy, toy_codec, toy_unmarshal, event_named, empty_database, environment, good}

abbrev other : Msg
other = record { sequence = 3; payload = codes "cd" }

abbrev first_event : FactoEvent
first_event = event_named (codes "ab")

abbrev second_event : FactoEvent
second_event = event_named (codes "cd")

abbrev root_row : MerkleRow
root_row = record {
  date = truncate_day 200;
  bucket_time = 200;
  root_hash = Merkle.hash_pair toy (codes "ab") (codes "cd");
  event_count = 2;
  first_facto_id = codes "ab";
  last_facto_id = codes "cd";
  event_hashes = codes "ab" ∷ codes "cd" ∷ [];
  created_at = 300;
}

-- The consumer with one message, and after the batch of both.
abbrev pub holding : Consumer
holding = record (new_consumer 2 empty_database) {
  events = first_event ∷ [];
  messages = good ∷ [];
  metrics = record (new_consumer 2 empty_database).metrics { events_consumed = 1 };
}

abbrev stored_both : Consumer
stored_both = record {
  batch_size = 2;
  events = [];
  messages = [];
  replies = (good, ack) ∷ (other, ack) ∷ [];
  metrics = record {
    events_consumed = 2;
    events_processed = 2;
    events_failed = 0;
    batches_processed = 1;
    batch_sizes = 2 ∷ [];
    merkle_trees_created = 1;
  };
  db = record {
    events =
        event_row 100 (process toy_codec first_event)
        ∷ event_row 101 (process toy_codec second_event)
        ∷ [];
    by_facto_id =
        event_row 100 (process toy_codec first_event)
        ∷ event_row 101 (process toy_codec second_event)
        ∷ [];
    by_session =
        session_row 100 (process toy_codec first_event)
        ∷ session_row 101 (process toy_codec second_event)
        ∷ [];
    merkle_roots = root_row ∷ [];
  };
}

pub receive-first :
    receive toy toy_codec toy_unmarshal (message environment good) (new_consumer 2 empty_database)
    ≡ some (holding, running)
unfolding receive handle_message new_consumer accept ℕ_discrete dec_lt
receive-first = refl

receive-second :
    receive toy toy_codec toy_unmarshal (message environment other) holding
    ≡ some (stored_both, running)
unfolding receive handle_message new_consumer accept flush flush_pending finish_batch after_store
    store_succeeded store_failed store_merkle_root store_batch start run step execute wait
    store_events_batch store_by_facto_id_batch store_by_session_batch batches batches_from rows_from
    Merkle.build_merkle_tree Merkle.pair_up Merkle.hash_pair Merkle.join Merkle.root_hash ℕ_discrete
    dec_lt
receive-second = refl

abbrev both : System
both = record {
  consumer = stored_both;
  main = running;
  fetcher = polling;
  queue = [];
  closed = false;
  done = false;
  panicked = false;
  fetched = good ∷ other ∷ [];
}

both-Reach :
    Reach toy toy_codec toy_unmarshal 2 empty_database
      (message environment good ∷ message environment other ∷ [])
      both
unfolding initial
both-Reach =
    onward
      (onward
        (onward
          (onward
            (onward
              (onward (begin (omega arith))
                (inner (fetch (good ∷ other ∷ []) refl refl (omega arith))))
              (inner (send good (other ∷ []) refl refl (omega arith))))
            (inner (send other [] refl refl (omega arith))))
          (inner (sent_all refl)))
        (select (message environment good) holding running refl
          (received environment good (other ∷ []) refl) receive-first))
      (select (message environment other) stored_both running refl
        (received environment other [] refl) receive-second)

abbrev session_rows : Bytes → ℕ → Rows SessionRow
session_rows session_id limit = record { rows = stored_both.db.by_session; close = none }

abbrev read_first : EventResponse
read_first = event_of_session_row toy_codec (session_row 100 (process toy_codec first_event))

abbrev read_second : EventResponse
read_second = event_of_session_row toy_codec (session_row 101 (process toy_codec second_event))

session_rows-run :
    get_session_events toy_codec session_rows (codes "s") 10000 []
    ≡ ok (read_first ∷ read_second ∷ [], none)
unfolding get_session_events scan_session paginate
session_rows-run = refl

evidence-ProvesIn_example :
    (r : EvidencePackageResponse) × (handle_evidence_package toy toy_codec session_rows
        (codes "now")
        (codes "then")
        (bound (codes "s"))
      ≡ success r)
    × All (ProvesIn toy root_row.root_hash) r.merkle_proofs
unfolding event_of_session_row build_event_response session_row process
evidence-ProvesIn_example =
    evidence-ProvesIn toy toy_codec session_rows (codes "now") (codes "then") (codes "s")
      toy_unmarshal 2 empty_database root_row read_first read_second [] none both-Reach tt
      (inl refl) session_rows-run refl
