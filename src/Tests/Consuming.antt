-- ===== src/Tests/Consuming.antt =====
-- Runs of the storage and of the consumer of server/processor/storage.go and consumer.go.
use facto.Base.{
  Bool, ◌+◌, ◌≡◌, refl, ◌<◌, ◌≤◌, arith, List, [], ◌∷◌, Option, some, none, All, concat, length,
  ℕ_discrete, dec_lt,
}
use facto.Go.Text.{codes}
use facto.Go.Time.{truncate_day}
use facto.Processor.Event.{FactoEvent}
use facto.Processor.Merkle
use facto.Processor.Storage.{event_row, session_row, process}
use facto.Processor.Storage.Batch.{
  Error, Database, done, failed, events, by_facto_id, by_session, Turn, batches, batches_from,
  rows_from, execute, run, step, wait, start, store_batch, store_merkle_root, store_events_batch,
  store_by_facto_id_batch, store_by_session_batch,
}
use facto.Processor.Storage.Batch.Chunks.{batches-cover}
use facto.Processor.Storage.Returns.{AllDone, store_batch_returns}
use facto.Processor.Consumer.{
  Input, Exit, Msg, cancelled, message, context_error, Consumer, new_consumer, select_loop, receive,
  handle_message, flush, flush_pending, accept, reject, finish_batch, after_store, store_succeeded,
  store_failed, running, ack, nak,
}
use facto.Processor.Consumer.Progress.{IsPrompt, select_loop_returns}
use facto.Processor.Consumer.Shutdown.{shutdown_answers_all}
use facto.Processor.Consumer.Invariant.{count, replied, IsConsistent, select_loop-IsConsistent}
use facto.Processor.Consumer.Roots.{IsRootOf, merkle_roots-IsRootOf}
use facto.Tests.Data.{
  toy, toy_codec, toy_unmarshal, event_named, empty_database, schedule, environment, good, bad,
  inputs,
}

abbrev event : FactoEvent
event = event_named (codes "ab")

-- What the three tables hold after the one event was stored.
abbrev filled : Database
filled = record {
  events = event_row 100 (process toy_codec event) ∷ [];
  by_facto_id = event_row 100 (process toy_codec event) ∷ [];
  by_session = session_row 100 (process toy_codec event) ∷ [];
  merkle_roots = [];
}

-- The goroutine of the sessions fails, which the other two do not see.
abbrev failing : List Turn
failing = by_session (failed 5 []) ∷ events done ∷ by_facto_id done ∷ []

store_batch-failing :
    store_batch toy_codec failing (λ n. 100 + n) (event ∷ []) empty_database
    ≡ some (record filled { by_session = [] }, some 5)
unfolding store_batch start run step execute wait store_events_batch store_by_facto_id_batch
    store_by_session_batch batches batches_from rows_from ℕ_discrete dec_lt
store_batch-failing = refl

batches-cover_example :
    (concat (batches event_row (λ n. n) (process toy_codec event ∷ []))
      ≡ rows_from event_row (λ n. n) 0 (process toy_codec event ∷ []))
    × All
        (λ b. (0 < length b) × (length b ≤ 50))
        (batches event_row (λ n. n) (process toy_codec event ∷ []))
batches-cover_example = batches-cover event_row (λ n. n) (process toy_codec event ∷ [])

store_batch_returns_example :
    (db' : Database) × (err : Option Error) × (store_batch toy_codec schedule
        (λ n. n)
        (event ∷ [])
        empty_database
      ≡ some (db', err))
    × (AllDone schedule → err ≡ none)
store_batch_returns_example =
    store_batch_returns toy_codec schedule (λ n. n) (event ∷ []) empty_database (omega arith)
      (omega arith) (omega arith)

-- The consumer after the run: one message acknowledged, the other not.
abbrev ending : Consumer
ending = record {
  batch_size = 1;
  events = [];
  messages = [];
  replies = (good, ack) ∷ (bad, nak) ∷ [];
  metrics = record {
    events_consumed = 2;
    events_processed = 1;
    events_failed = 1;
    batches_processed = 1;
    batch_sizes = 1 ∷ [];
    merkle_trees_created = 1;
  };
  db = record filled {
    merkle_roots =
        record {
          date = truncate_day 200;
          bucket_time = 200;
          root_hash = Merkle.hash_pair toy (codes "ab") (codes "ab");
          event_count = 1;
          first_facto_id = codes "ab";
          last_facto_id = codes "ab";
          event_hashes = codes "ab" ∷ [];
          created_at = 300;
        }
        ∷ [];
  };
}

select_loop-run :
    select_loop toy toy_codec toy_unmarshal inputs (new_consumer 1 empty_database)
    ≡ some (ending, running)
unfolding select_loop receive handle_message new_consumer accept reject flush flush_pending
    finish_batch after_store store_succeeded store_failed store_merkle_root store_batch start run
    step execute wait store_events_batch store_by_facto_id_batch store_by_session_batch batches
    batches_from rows_from Merkle.build_merkle_tree Merkle.pair_up Merkle.hash_pair Merkle.join
    Merkle.root_hash ℕ_discrete dec_lt
select_loop-run = refl

select_loop-IsConsistent_example : IsConsistent toy_unmarshal (good ∷ bad ∷ []) ending
select_loop-IsConsistent_example =
    select_loop-IsConsistent toy_unmarshal toy toy_codec 1 empty_database inputs ending running
      select_loop-run

merkle_roots-IsRootOf_example : All (IsRootOf toy) ending.db.merkle_roots
merkle_roots-IsRootOf_example =
    merkle_roots-IsRootOf toy toy_codec toy_unmarshal 1 empty_database inputs ending running tt
      select_loop-run

environment-IsPrompt : IsPrompt 1 environment
environment-IsPrompt = record {
  for_events = omega arith;
  for_by_facto_id = omega arith;
  for_by_session = omega arith;
}

select_loop_returns_example :
    (c : Consumer) × (x : Exit) × (select_loop toy toy_codec toy_unmarshal inputs
        (new_consumer 1 empty_database)
      ≡ some (c, x))
    × (length c.events < 1)
select_loop_returns_example =
    select_loop_returns toy toy_codec toy_unmarshal 1 (omega arith) empty_database inputs
      (environment-IsPrompt, (environment-IsPrompt, (environment-IsPrompt, tt)))

-- A message that is still buffered when the context ends.
abbrev stopping : List Input
stopping = message environment good ∷ cancelled environment ∷ []

abbrev pub flushed : Consumer
flushed = record ending {
  batch_size = 2;
  replies = (good, ack) ∷ [];
  metrics = record ending.metrics { events_consumed = 1; events_failed = 0 };
}

stopping-run :
    select_loop toy toy_codec toy_unmarshal stopping (new_consumer 2 empty_database)
    ≡ some (flushed, context_error)
unfolding select_loop receive handle_message new_consumer accept reject flush flush_pending
    finish_batch after_store store_succeeded store_failed store_merkle_root store_batch start run
    step execute wait store_events_batch store_by_facto_id_batch store_by_session_batch batches
    batches_from rows_from Merkle.build_merkle_tree Merkle.pair_up Merkle.hash_pair Merkle.join
    Merkle.root_hash ℕ_discrete dec_lt
stopping-run = refl

shutdown_answers_all_example :
    (flushed.events ≡ [])
    × (flushed.messages ≡ [])
    × ((p : Msg → Bool) → count p (good ∷ []) ≡ count p (replied flushed.replies))
shutdown_answers_all_example =
    shutdown_answers_all toy toy_codec toy_unmarshal 2 empty_database stopping flushed stopping-run
