-- ===== src/Tests/Fetching.antt =====
-- A run of both goroutines of Start of server/processor/consumer.go.
use facto.Base.{
  Bool, ◌+◌, ◌≡◌, ◌≤◌, ◌↔◌, refl, arith, List, [], ◌∷◌, some, true, false, length, ℕ_discrete,
  dec_lt,
}
use facto.Processor.Merkle
use facto.Processor.Storage.Batch.{
  batches, batches_from, rows_from, execute, run, step, wait, start, store_batch, store_merkle_root,
  store_events_batch, store_by_facto_id_batch, store_by_session_batch,
}
use facto.Processor.Consumer.{
  Msg, Input, cancelled, message, running, context_error, new_consumer, select_loop, receive,
  handle_message, flush, flush_pending, accept, reject, finish_batch, after_store, store_succeeded,
  store_failed,
}
use facto.Processor.Consumer.Invariant.{count, replied}
use facto.Processor.Fetching.{
  System, polling, sending, stopped, pending, initial, cancel, fetch, send, sent_all, context_done,
  received, inner, select, Reach, begin, onward, Follows,
}
use facto.Processor.Fetching.Order.{Reach-accounted}
use facto.Processor.Fetching.Closing.{IsClosing, Reach-IsClosing}
use facto.Processor.Consumer.Progress.{IsPrompt}
use facto.Processor.Fetching.Drain.{can_answer_all}
use facto.Processor.Fetching.Leak.{fetcher_returns_iff}
use facto.Tests.Data.{toy, toy_codec, toy_unmarshal, empty_database, environment, good, bad}
use facto.Tests.Consuming.{flushed}

-- The loop has taken one message and then the end of the context, another message is in the channel, which
-- is full, and the goroutine that fetches holds a third.
abbrev pub stuck : System
stuck = record {
  consumer = record flushed { batch_size = 1 };
  main = context_error;
  fetcher = sending (bad ∷ []);
  queue = good ∷ [];
  closed = false;
  done = true;
  panicked = false;
  fetched = good ∷ good ∷ bad ∷ [];
}

abbrev pub taken : List Input
taken = message environment good ∷ cancelled environment ∷ []

receive-good :
    receive toy toy_codec toy_unmarshal (message environment good) (new_consumer 1 empty_database)
    ≡ some (stuck.consumer, running)
unfolding select_loop receive handle_message new_consumer accept reject flush flush_pending
    finish_batch after_store store_succeeded store_failed store_merkle_root store_batch start run
    step execute wait store_events_batch store_by_facto_id_batch store_by_session_batch batches
    batches_from rows_from Merkle.build_merkle_tree Merkle.pair_up Merkle.hash_pair Merkle.join
    Merkle.root_hash ℕ_discrete dec_lt
receive-good = refl

receive-cancelled :
    receive toy toy_codec toy_unmarshal (cancelled environment) stuck.consumer
    ≡ some (stuck.consumer, context_error)
unfolding receive flush_pending
receive-cancelled = refl

-- Up to here the loop has received one message, and the goroutine polls again.
abbrev polled : System
polled = record stuck {
  main = running;
  fetcher = polling;
  queue = [];
  done = false;
  fetched = good ∷ [];
}

polled-Reach :
    Reach toy toy_codec toy_unmarshal 1 empty_database (message environment good ∷ []) polled
unfolding initial
polled-Reach =
    onward
      (onward
        (onward (onward (begin (omega arith)) (inner (fetch (good ∷ []) refl refl (omega arith))))
          (inner (send good [] refl refl (omega arith))))
        (inner (sent_all refl)))
      (select (message environment good) polled.consumer running refl
        (received environment good [] refl) receive-good)

-- A message is in the channel, and another waits to be sent.
abbrev loaded : System
loaded = record stuck { main = running; done = false }

loaded-Reach :
    Reach toy toy_codec toy_unmarshal 1 empty_database (message environment good ∷ []) loaded
loaded-Reach =
    onward
      (onward
        (onward (onward polled-Reach (inner (fetch (good ∷ []) refl refl (omega arith))))
          (inner (send good [] refl refl (omega arith))))
        (inner (sent_all refl)))
      (inner (fetch (bad ∷ []) refl refl (omega arith)))

pub stuck-Reach : Reach toy toy_codec toy_unmarshal 1 empty_database taken stuck
stuck-Reach = onward (onward loaded-Reach (inner cancel)) (
    select (cancelled environment) stuck.consumer context_error refl (context_done environment refl)
      receive-cancelled)

Reach-accounted_example :
    count (λ m. true) (good ∷ good ∷ bad ∷ [])
    ≡ count (λ m. true) (replied stuck.consumer.replies)
      + count (λ m. true) stuck.consumer.messages
      + count (λ m. true) (good ∷ [])
      + count (λ m. true) (bad ∷ [])
Reach-accounted_example =
    Reach-accounted toy toy_codec toy_unmarshal 1 empty_database stuck-Reach (λ m. true)

Reach-IsClosing_example : IsClosing stuck
Reach-IsClosing_example = Reach-IsClosing toy toy_codec toy_unmarshal 1 empty_database stuck-Reach

fetcher_returns_iff_example :
    ((t : System) × Follows toy toy_codec toy_unmarshal 1 stuck t × (t.fetcher ≡ stopped))
    ↔ (length stuck.queue + length (pending stuck.fetcher) ≤ 1)
fetcher_returns_iff_example =
    fetcher_returns_iff toy toy_codec toy_unmarshal 1 empty_database stuck-Reach
      (λ e. absurd (cc e))

-- Here it never returns.
stuck-waits : (t : System) → Follows toy toy_codec toy_unmarshal 1 stuck t → ¬ (t.fetcher ≡ stopped)
stuck-waits t f e = absurd (
    omega (
      arith,
      (fetcher_returns_iff toy toy_codec toy_unmarshal 1 empty_database stuck-Reach
            (λ k. absurd (cc k))).0
          (t, f, e),
    ))

prompt : IsPrompt 1 environment
prompt = record {
  for_events = omega arith;
  for_by_facto_id = omega arith;
  for_by_session = omega arith;
}

can_answer_all_example :
    (t : System) × Follows toy toy_codec toy_unmarshal 1 loaded t
    × (t.main ≡ running)
    × (t.fetched ≡ loaded.fetched)
    × ((p : Msg → Bool) → count p loaded.fetched ≡ count p (replied t.consumer.replies))
can_answer_all_example =
    can_answer_all toy toy_codec toy_unmarshal 1 empty_database environment prompt loaded-Reach refl
