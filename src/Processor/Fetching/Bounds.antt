-- ===== src/Processor/Fetching/Bounds.antt =====
-- How many messages Start of server/processor/consumer.go holds at once.
use facto.Base.{
  ℕ, ◌≡◌, ◌≤◌, ◌<◌, refl, ◌∙◌, ap, List, [], ◌∷◌, Option, some, arith, length, length-append, ltb,
  Bool-cases, inl, inr, subst,
}
use facto.Go.Text.{Bytes}
use facto.Go.Sha.{Digest}
use facto.Go.Library.{Codec}
use facto.Processor.Event.{FactoEvent}
use facto.Processor.Storage.Batch.{Database}
use facto.Processor.Consumer.{
  Consumer, Msg, Environment, Input, Exit, cancelled, message, channel_closed, tick, context_error,
  running, new_consumer, flush_pending, receive,
}
use facto.Processor.Consumer.Roots.{flush-size, handle_message_bound}
use facto.Processor.Consumer.Shutdown.{with_exit-some}
use facto.Processor.Fetching.{
  System, pending, initial, Inner, cancel, fetch, fetch_failed, send, send_on_closed, sent_all,
  close, close_again, Offered, context_done, received, drained, ticked, inner, select, Reach, begin,
  onward,
}

-- Each of the three places holds no more than a batch.
pub record IsBounded (n : ℕ) (s : System) : Type 0 where
  pub size : s.consumer.batch_size ≡ n
  pub positive : 0 < n
  pub buffered : length s.consumer.events < n
  pub queued : length s.queue ≤ n
  pub to_send : length (pending s.fetcher) ≤ n

Inner-IsBounded : {n : ℕ} {s t : System} → Inner n s t → IsBounded n s → IsBounded n t
Inner-IsBounded cancel h = record {
  size = h.size;
  positive = h.positive;
  buffered = h.buffered;
  queued = h.queued;
  to_send = h.to_send;
}
Inner-IsBounded (fetch ms p d l) h = record {
  size = h.size;
  positive = h.positive;
  buffered = h.buffered;
  queued = h.queued;
  to_send = l;
}
Inner-IsBounded (fetch_failed p d) h = h
Inner-IsBounded {s = s} (send m ms p c l) h = record {
  size = h.size;
  positive = h.positive;
  buffered = h.buffered;
  queued = omega (arith, length-append s.queue (m ∷ []));
  to_send = omega (arith, h.to_send, ap (λ f. length (pending f)) p);
}
Inner-IsBounded (send_on_closed m ms p d) h = record {
  size = h.size;
  positive = h.positive;
  buffered = h.buffered;
  queued = h.queued;
  to_send = h.to_send;
}
Inner-IsBounded (sent_all p) h = record {
  size = h.size;
  positive = h.positive;
  buffered = h.buffered;
  queued = h.queued;
  to_send = omega arith;
}
Inner-IsBounded (close p d c) h = record {
  size = h.size;
  positive = h.positive;
  buffered = h.buffered;
  queued = h.queued;
  to_send = omega arith;
}
Inner-IsBounded (close_again p d c) h = record {
  size = h.size;
  positive = h.positive;
  buffered = h.buffered;
  queued = h.queued;
  to_send = h.to_send;
}

Offered-queued :
    (n : ℕ) (i : Input) (s : System) (queue : List Msg)
    → Offered s i queue
    → length s.queue ≤ n
    → length queue ≤ n
Offered-queued n i s queue (context_done env d) h = h
Offered-queued n i s queue (received env m left e) h = omega (arith, ap length e)
Offered-queued n i s queue (drained e c) h = h
Offered-queued n i s queue (ticked env) h = h

module _ (sha256 : Digest) (codec : Codec) (unmarshal : Bytes → Option FactoEvent) (n : ℕ)
    (positive : 0 < n) where
  flush_pending-bound :
      (env : Environment) (c d : Consumer)
      → c.batch_size ≡ n
      → length c.events < n
      → flush_pending sha256 codec env c ≡ some d
      → (d.batch_size ≡ n) × (length d.events < n)
  unfolding flush_pending
  flush_pending-bound env c d size l h = elim (Bool-cases (ltb 0 (length c.events))) [
    | inl t ↦
        let (same, empty) = flush-size sha256 codec unmarshal env c d (rw t at h) in
        (same ∙ size, omega (arith, empty, positive))
    | inr f ↦
        let same : c ≡ d = cc (rw f at h) in
        subst (λ (e : Consumer). (e.batch_size ≡ n) × (length e.events < n)) same (size, l)
  ]

  receive-bound :
      (i : Input) (c d : Consumer) (x : Exit)
      → c.batch_size ≡ n
      → length c.events < n
      → receive sha256 codec unmarshal i c ≡ some (d, x)
      → (d.batch_size ≡ n) × (length d.events < n)
  unfolding receive
  receive-bound (cancelled env) c d x size l h =
      flush_pending-bound env c d size l (with_exit-some context_error x _ d h).0
  receive-bound (message env m) c d x size l h =
      let taken = (with_exit-some running x _ d h).0 in
      let (same, below) =
        handle_message_bound sha256 codec unmarshal env m d c (omega (arith, size, positive))
          (omega (arith, size, l)) taken in
      (same ∙ size, omega (arith, same, size, below))
  receive-bound channel_closed c d x size l h =
      let same : c ≡ d = cc h in
      subst (λ (e : Consumer). (e.batch_size ≡ n) × (length e.events < n)) same (size, l)
  receive-bound (tick env) c d x size l h =
      flush_pending-bound env c d size l (with_exit-some running x _ d h).0

module _ (sha256 : Digest) (codec : Codec) (unmarshal : Bytes → Option FactoEvent) (n : ℕ)
    (db : Database) where
  pub Reach-IsBounded :
      {taken : List Input} {s : System} → Reach sha256 codec unmarshal n db taken s → IsBounded n s
  unfolding initial new_consumer
  Reach-IsBounded (begin pos) = record {
    size = refl;
    positive = pos;
    buffered = pos;
    queued = omega arith;
    to_send = omega arith;
  }
  Reach-IsBounded (onward r (inner st)) = Inner-IsBounded st (Reach-IsBounded r)
  Reach-IsBounded (onward {s = s} r (select {queue} i c x going offered took)) =
      let h = Reach-IsBounded r in
      let (size, below) =
        receive-bound sha256 codec unmarshal n h.positive i s.consumer c x h.size h.buffered took in
      record {
        size = size;
        positive = h.positive;
        buffered = below;
        queued = Offered-queued n i s queue offered h.queued;
        to_send = h.to_send;
      }
