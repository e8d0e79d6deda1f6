-- ===== src/Processor/Consumer.antt =====
-- server/processor/consumer.go: the consumer that buffers the events of the queue and flushes them in
-- batches. Each method takes what the environment decides and returns the state it leaves.
pub mod Flush
pub mod Loop
pub mod Invariant
pub mod Durable
pub mod Origin
pub mod Roots
pub mod Progress
pub mod Shutdown
use facto.Base.{
  ℕ, zero, suc, ◌+◌, List, [], ◌∷◌, ◌++◌, map, Option, none, some, Bool, true, false, leb, ltb,
  ◌==◌, if◌then◌else◌, length, last_or,
}
use facto.Go.Text.{Bytes}
use facto.Go.Time.{Time}
use facto.Go.Sha.{Digest}
use facto.Go.Library.{Codec}
use facto.Processor.Event.{FactoEvent}
use facto.Processor.Merkle
use facto.Processor.Storage.Batch.{
  Error, Turn, Database, RootOutcome, store_batch, store_merkle_root,
}

-- A `jetstream.Msg`: its sequence number in the stream, and its data.
pub record Msg : Type 0 where
  pub sequence : ℕ
  pub payload : Bytes

-- What the consumer answers the server for a message.
pub data Reply : Type 0 where
  ack nak : Reply

-- The Prometheus counters, and the sizes that the histogram observed.
pub record Metrics : Type 0 where
  pub events_consumed : ℕ
  pub events_processed : ℕ
  pub events_failed : ℕ
  pub batches_processed : ℕ
  pub batch_sizes : List ℕ
  pub merkle_trees_created : ℕ

-- The fields of Consumer that change, with the counters, the replies sent in order, and the database.
pub record Consumer : Type 0 where
  pub batch_size : ℕ
  pub events : List FactoEvent
  pub messages : List Msg
  pub replies : List (Msg × Reply)
  pub metrics : Metrics
  pub db : Database

-- What the environment decides for one flush: the goroutines' schedule, the readings of the clock, and
-- how the INSERT of the Merkle root ends.
pub record Environment : Type 0 where
  pub schedule : List Turn
  pub now : ℕ → Time
  pub bucket_time : Time
  pub created_at : Time
  pub root_outcome : RootOutcome

-- `for _, msg := range c.messages { msg.Ack() }`, or Nak.
abbrev pub reply_all : Reply → List Msg → List (Msg × Reply)
reply_all r = map (λ m. (m, r))

abbrev pub event_hashes : List FactoEvent → List Bytes
event_hashes = map (λ e. e.proof.event_hash)

-- NewConsumer, connected to a database.
unfoldable pub new_consumer : ℕ → Database → Consumer
new_consumer batch_size db = record {
  batch_size = batch_size;
  events = [];
  messages = [];
  replies = [];
  metrics = record {
    events_consumed = 0;
    events_processed = 0;
    events_failed = 0;
    batches_processed = 0;
    batch_sizes = [];
    merkle_trees_created = 0;
  };
  db = db;
}

-- The branch of flush for an error of StoreBatch: every message is negatively acknowledged.
unfoldable pub store_failed : Database → Consumer → Consumer
store_failed db c = record c {
  db = db;
  replies = c.replies ++ reply_all nak c.messages;
  metrics = record c.metrics { events_failed = c.metrics.events_failed + length c.events };
}

-- `c.events[0].FactoID` and `c.events[len(c.events)-1].FactoID`
abbrev pub first_id : List FactoEvent → Bytes
first_id [] = []
first_id (e ∷ es) = e.facto_id

abbrev pub last_id : List FactoEvent → Bytes
last_id es = last_or [] (map (λ e. e.facto_id) es)

-- The other branch: the Merkle root is stored, an error of which is only logged, and every message is
-- acknowledged.
unfoldable pub store_succeeded : Environment → Bytes → Database → Consumer → Consumer
store_succeeded env root db c =
    let (db', err) =
      store_merkle_root env.root_outcome env.bucket_time env.created_at root (length c.events)
        (first_id c.events) (last_id c.events) (event_hashes c.events) db in
    record c {
      db = db';
      replies = c.replies ++ reply_all ack c.messages;
      metrics = record c.metrics {
        events_processed = c.metrics.events_processed + length c.events;
      };
    }

unfoldable pub after_store : Environment → Bytes → Database → Option Error → Consumer → Consumer
unfolding store_failed store_succeeded
after_store env root db (some err) c = store_failed db c
after_store env root db none c = store_succeeded env root db c

-- The metrics after either branch, and the empty buffers.
unfoldable pub finish_batch : ℕ → Consumer → Consumer
finish_batch event_count c = record c {
  metrics = record c.metrics {
    batches_processed = suc c.metrics.batches_processed;
    batch_sizes = c.metrics.batch_sizes ++ event_count ∷ [];
  };
  events = [];
  messages = [];
}

abbrev pub count_tree : Consumer → Consumer
count_tree c = record c {
  metrics = record c.metrics { merkle_trees_created = suc c.metrics.merkle_trees_created };
}

-- What the select of Start receives: the end of the context, a message or the closing of the
-- channel, a tick. Each comes with the environment of the flush that it may cause.
pub data Input : Type 0 where
  cancelled : Environment → Input
  message : Environment → Msg → Input
  channel_closed : Input
  tick : Environment → Input

-- How Start ends: with the context's error, with nil, or not within the inputs given.
pub data Exit : Type 0 where
  context_error no_error running : Exit

abbrev pub with_exit : Exit → Option Consumer → Option (Consumer × Exit)
with_exit e none = none
with_exit e (some c) = some (c, e)

-- `json.Unmarshal` failed: the message is negatively acknowledged at once.
unfoldable pub reject : Msg → Consumer → Consumer
reject msg c = record c {
  replies = c.replies ++ (msg, nak) ∷ [];
  metrics = record c.metrics {
    events_consumed = suc c.metrics.events_consumed;
    events_failed = suc c.metrics.events_failed;
  };
}

unfoldable pub accept : Msg → FactoEvent → Consumer → Consumer
accept msg event c = record c {
  events = c.events ++ event ∷ [];
  messages = c.messages ++ msg ∷ [];
  metrics = record c.metrics { events_consumed = suc c.metrics.events_consumed };
}

-- The loop goes on unless the input ended it.
abbrev pub proceed :
    (Consumer → Option (Consumer × Exit)) → Option (Consumer × Exit) → Option (Consumer × Exit)
proceed next none = none
proceed next (some (c, running)) = next c
proceed next (some (c, context_error)) = some (c, context_error)
proceed next (some (c, no_error)) = some (c, no_error)

module _ (sha256 : Digest) (codec : Codec) where
  -- The rest of flush after StoreBatch, and after BuildMerkleTree.
  abbrev pub flush_stored :
      Environment → Bytes → Consumer → Option (Database × Option Error) → Option Consumer
  flush_stored env root c none = none
  flush_stored env root c (some (db, err)) =
      some (finish_batch (length c.events) (after_store env root db err (count_tree c)))

  abbrev pub flush_built :
      Environment → Consumer → Option (Merkle.MerkleTree × Merkle.Heap) → Option Consumer
  flush_built env c none = none
  flush_built env c (some (tree, heap)) =
      flush_stored env (Merkle.root_hash heap tree) c
        (store_batch codec env.schedule env.now c.events c.db)

  -- flush; `none` means that it has not returned.
  unfoldable pub flush : Environment → Consumer → Option Consumer
  flush env c =
      if length c.events == 0
      then some c
      else flush_built env c (Merkle.build_merkle_tree sha256 (event_hashes c.events))

  -- `if len(c.events) > 0 { c.flush(ctx) }`
  unfoldable pub flush_pending : Environment → Consumer → Option Consumer
  flush_pending env c = if ltb 0 (length c.events) then flush env c else some c

module _ (sha256 : Digest) (codec : Codec) (unmarshal : Bytes → Option FactoEvent) where
  -- The rest of handleMessage after decoding.
  abbrev pub handle_decoded : Environment → Msg → Consumer → Option FactoEvent → Option Consumer
  handle_decoded env msg c none = some (reject msg c)
  handle_decoded env msg c (some event) =
      let c' = accept msg event c in
      if leb c'.batch_size (length c'.events) then flush sha256 codec env c' else some c'

  unfoldable pub handle_message : Environment → Msg → Consumer → Option Consumer
  handle_message env msg c = handle_decoded env msg c (unmarshal msg.payload)

  -- One input of the loop: the state that it leaves, and whether the loop goes on.
  unfoldable pub receive : Input → Consumer → Option (Consumer × Exit)
  receive (cancelled env) c = with_exit context_error (flush_pending sha256 codec env c)
  receive (message env msg) c = with_exit running (handle_message env msg c)
  receive channel_closed c = some (c, no_error)
  receive (tick env) c = with_exit running (flush_pending sha256 codec env c)

  -- The loop of Start over the inputs in the order in which select takes them.
  unfoldable pub select_loop : List Input → Consumer → Option (Consumer × Exit)
  select_loop [] c = some (c, running)
  select_loop (i ∷ rest) c = proceed (select_loop rest) (receive i c)
