-- ===== src/Processor/Consumer/Invariant.antt =====
-- The buffers, the replies and the counters of the consumer of server/processor/consumer.go between two
-- inputs.
use facto.Base.{
  ℕ, ◌+◌, ◌≡◌, refl, List, [], ◌∷◌, ◌++◌, map, Option, none, some, Bool, arith, ◌∙◌, sym, ap, ap₂,
  length, if◌then◌else◌, length-append, subst,
}
use mathlib.Core.List.{map-append}
use facto.Go.Text.{Bytes}
use facto.Go.Sha.{Digest}
use facto.Go.Library.{Codec}
use facto.Processor.Event.{FactoEvent}
use facto.Processor.Merkle
use facto.Processor.Storage.Batch.{Error, Database}
use facto.Processor.Consumer.{
  Consumer, Msg, Reply, ack, nak, Environment, finish_batch, after_store, count_tree, reply_all,
  reject, accept, Input, Exit, select_loop, new_consumer,
}
use facto.Processor.Consumer.Loop.{Kept, select_loop-Kept, received_from}

-- How many of the messages satisfy a test.
abbrev pub count : (Msg → Bool) → List Msg → ℕ
count p [] = 0
count p (m ∷ ms) = (if p m then 1 else 0) + count p ms

abbrev pub replied : List (Msg × Reply) → List Msg
replied = map (λ r. r.0)

pub count-append :
    (p : Msg → Bool) (xs ys : List Msg) → count p (xs ++ ys) ≡ count p xs + count p ys
count-append p [] ys = omega arith
count-append p (x ∷ xs) ys = omega (arith, count-append p xs ys)

replied-reply_all : (r : Reply) (ms : List Msg) → replied (reply_all r ms) ≡ ms
replied-reply_all r [] = refl
replied-reply_all r (m ∷ ms) = ap (λ l. m ∷ l) (replied-reply_all r ms)

module _ (unmarshal : Bytes → Option FactoEvent) where
  -- After the messages `received`: the buffered messages decode to the buffered events, in order; every
  -- message was answered once or is buffered; each consumed event is processed, failed or buffered.
  pub record IsConsistent (received : List Msg) (c : Consumer) : Type 0 where
    pub decoded : map (λ m. unmarshal m.payload) c.messages ≡ map (λ e. some e) c.events
    pub answered :
        (p : Msg → Bool) → count p received ≡ count p (replied c.replies) + count p c.messages
    pub consumed : c.metrics.events_consumed ≡ length received
    pub counted :
        c.metrics.events_consumed
        ≡ c.metrics.events_processed + c.metrics.events_failed + length c.events

  -- Both branches of flush answer every buffered message and count every buffered event.
  record Answers (c c' : Consumer) : Type 0 where
    reply : Reply
    replies_are : c'.replies ≡ c.replies ++ reply_all reply c.messages
    events_empty : c'.events ≡ []
    messages_empty : c'.messages ≡ []
    consumed_kept : c'.metrics.events_consumed ≡ c.metrics.events_consumed
    counts :
        c'.metrics.events_processed + c'.metrics.events_failed
        ≡ c.metrics.events_processed + c.metrics.events_failed + length c.events

  after_store-Answers :
      (env : Environment) (root : Bytes) (db : Database) (err : Option Error) (c : Consumer)
      → Answers c (finish_batch (length c.events) (after_store env root db err (count_tree c)))
  unfolding finish_batch after_store
  after_store-Answers env root db (some e) c = record {
    reply = nak;
    replies_are = refl;
    events_empty = refl;
    messages_empty = refl;
    consumed_kept = refl;
    counts = omega arith;
  }
  after_store-Answers env root db none c = record {
    reply = ack;
    replies_are = refl;
    events_empty = refl;
    messages_empty = refl;
    consumed_kept = refl;
    counts = omega arith;
  }

  replied-Answers :
      (c c' : Consumer) → Answers c c' → replied c'.replies ≡ replied c.replies ++ c.messages
  replied-Answers c c' a =
      ap replied a.replies_are
      ∙ map-append (λ r. r.0) c.replies (reply_all a.reply c.messages)
      ∙ ap (λ l. replied c.replies ++ l) (replied-reply_all a.reply c.messages)

  Answers-IsConsistent :
      (received : List Msg) (c c' : Consumer)
      → Answers c c'
      → IsConsistent received c
      → IsConsistent received c'
  Answers-IsConsistent received c c' a h = record {
    decoded = rw (a.messages_empty, a.events_empty) refl;
    answered = λ p. omega (
      arith,
      ap (count p) (replied-Answers c c' a),
      count-append p (replied c.replies) c.messages,
      ap (count p) a.messages_empty,
      h.answered p,
    );
    consumed = a.consumed_kept ∙ h.consumed;
    counted = omega (arith, a.consumed_kept, a.counts, h.counted, ap length a.events_empty);
  }

  reject-IsConsistent :
      (received : List Msg) (m : Msg) (c : Consumer)
      → IsConsistent received c
      → IsConsistent (received ++ m ∷ []) (reject m c)
  unfolding reject
  reject-IsConsistent received m c h = record {
    decoded = h.decoded;
    answered = λ p. omega (
      arith,
      count-append p received (m ∷ []),
      ap (count p) (map-append (λ (r : Msg × Reply). r.0) c.replies ((m, nak) ∷ [])),
      count-append p (replied c.replies) (m ∷ []),
      h.answered p,
    );
    consumed = omega (arith, h.consumed, length-append received (m ∷ []));
    counted = omega (arith, h.counted);
  }

  accept-IsConsistent :
      (received : List Msg) (m : Msg) (e : FactoEvent) (c : Consumer)
      → unmarshal m.payload ≡ some e
      → IsConsistent received c
      → IsConsistent (received ++ m ∷ []) (accept m e c)
  unfolding accept
  accept-IsConsistent received m e c d h = record {
    decoded =
        map-append (λ m. unmarshal m.payload) c.messages (m ∷ [])
        ∙ ap₂ (λ l x. l ++ x ∷ []) h.decoded d
        ∙ sym (map-append (λ e. some e) c.events (e ∷ []));
    answered = λ p.
        omega (
          arith,
          count-append p received (m ∷ []),
          count-append p c.messages (m ∷ []),
          h.answered p,
        );
    consumed = omega (arith, h.consumed, length-append received (m ∷ []));
    counted = omega (arith, h.counted, length-append c.events (e ∷ []));
  }

  module _ (sha256 : Digest) (codec : Codec) where
    pub IsConsistent-Kept : Kept sha256 codec unmarshal IsConsistent
    IsConsistent-Kept = record {
      on_flush = λ received env c c' x h. subst (IsConsistent received) (sym x.result) (
          Answers-IsConsistent received c _
            (after_store-Answers env (Merkle.root_hash x.heap x.tree) x.db x.err c) h);
      on_reject = λ received m c d h. reject-IsConsistent received m c h;
      on_accept = λ received m e c d h. accept-IsConsistent received m e c d h;
    }

    pub new_consumer-IsConsistent :
        (batch_size : ℕ) (db : Database) → IsConsistent [] (new_consumer batch_size db)
    unfolding new_consumer
    new_consumer-IsConsistent batch_size db = record {
      decoded = refl;
      answered = λ p. refl;
      consumed = refl;
      counted = refl;
    }

    -- Whatever a new consumer receives, and however each of its flushes ends: when the loop of Start
    -- pauses or ends, the buffered messages decode to the buffered events, every message received was
    -- answered exactly once or is buffered, and the consumed counter is the number of messages received
    -- and the sum of the processed and failed counters and the buffer's length.
    pub select_loop-IsConsistent :
        (batch_size : ℕ) (db : Database) (inputs : List Input) (c : Consumer) (e : Exit)
        → select_loop sha256 codec unmarshal inputs (new_consumer batch_size db) ≡ some (c, e)
        → IsConsistent (received_from inputs) c
    select_loop-IsConsistent batch_size db inputs c e h =
        select_loop-Kept sha256 codec unmarshal IsConsistent IsConsistent-Kept [] inputs
          (new_consumer batch_size db) c e (new_consumer-IsConsistent batch_size db) h
