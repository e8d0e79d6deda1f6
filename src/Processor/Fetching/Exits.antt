-- ===== src/Processor/Fetching/Exits.antt =====
-- What is left unanswered when the loop of Start of server/processor/consumer.go has ended.
use facto.Base.{Bool, ℕ, ◌+◌, ◌≡◌, refl, ◌∙◌, sym, ap, List, [], Option, some, arith}
use facto.Go.Text.{Bytes}
use facto.Go.Sha.{Digest}
use facto.Go.Library.{Codec}
use facto.Processor.Event.{FactoEvent}
use facto.Processor.Storage.Batch.{Database}
use facto.Processor.Consumer.{Consumer, Msg, Input, Exit, running, context_error, no_error, receive}
use facto.Processor.Consumer.Invariant.{count, replied}
use facto.Processor.Consumer.Shutdown.{with_exit-some, shutdown_answers_all}
use facto.Processor.Fetching.{
  System, stopped, pending, initial, Inner, cancel, fetch, fetch_failed, send, send_on_closed,
  sent_all, close, close_again, Offered, context_done, received, drained, ticked, inner, select,
  Reach, begin, onward,
}
use facto.Processor.Fetching.Closing.{IsClosing, Reach-IsClosing}
use facto.Processor.Fetching.Order.{Reach-accounted}
use facto.Processor.Fetching.Refine.{Inner-consumer, Reach-select_loop}

-- The loop runs, or has returned the context's error or nil. Of the messages fetched, those not answered are
-- in the first case in the buffer, the channel or yet to be sent; in the second not in the buffer; in the
-- third all in the buffer.
pub data Exits (s : System) : Type 0 where
  runs : s.main ≡ running → Exits s
  at_context :
      s.main ≡ context_error
      → ((p : Msg → Bool)
          → count p s.fetched
            ≡ count p (replied s.consumer.replies) + count p s.queue + count p (pending s.fetcher))
      → Exits s
  at_close :
      s.main ≡ no_error
      → ((p : Msg → Bool)
          → count p s.fetched ≡ count p (replied s.consumer.replies) + count p s.consumer.messages)
      → Exits s

-- Nothing is in the channel, and the goroutine that fetches has returned.
record IsDrained (s : System) : Type 0 where
  empty : s.queue ≡ []
  returned : s.fetcher ≡ stopped

Inner-IsDrained : {n : ℕ} {s t : System} → Inner n s t → IsDrained s → IsDrained t
Inner-IsDrained cancel h = record { empty = h.empty; returned = h.returned }
Inner-IsDrained (fetch ms p d l) h = absurd (cc (h.returned, p))
Inner-IsDrained (fetch_failed p d) h = h
Inner-IsDrained (send m ms p d l) h = absurd (cc (h.returned, p))
Inner-IsDrained (send_on_closed m ms p d) h = absurd (cc (h.returned, p))
Inner-IsDrained (sent_all p) h = absurd (cc (h.returned, p))
Inner-IsDrained (close p d c) h = absurd (cc (h.returned, p))
Inner-IsDrained (close_again p d c) h = absurd (cc (h.returned, p))

Inner-main : {n : ℕ} {s t : System} → Inner n s t → t.main ≡ s.main
Inner-main st = (Inner-consumer st).1

module _ (sha256 : Digest) (codec : Codec) (unmarshal : Bytes → Option FactoEvent) (n : ℕ)
    (db : Database) where
  Offered-IsDrained :
      {s : System} {queue : List Msg} (i : Input) (c : Consumer) (x : Exit)
      → IsClosing s
      → Offered s i queue
      → receive sha256 codec unmarshal i s.consumer ≡ some (c, x)
      → x ≡ no_error
      → (queue ≡ []) × (s.fetcher ≡ stopped)
  unfolding receive
  Offered-IsDrained _ c x h (context_done env d) took e =
      absurd (cc ((with_exit-some context_error x _ c took).1, e))
  Offered-IsDrained _ c x h (received env m rest q) took e =
      absurd (cc ((with_exit-some running x _ c took).1, e))
  Offered-IsDrained _ c x h (drained q k) took e = (q, h.closed_iff.0 k)
  Offered-IsDrained _ c x h (ticked env) took e =
      absurd (cc ((with_exit-some running x _ c took).1, e))

  Reach-IsDrained :
      {taken : List Input} {s : System}
      → Reach sha256 codec unmarshal n db taken s
      → s.main ≡ no_error
      → IsDrained s
  unfolding initial
  Reach-IsDrained (begin pos) e = absurd (cc e)
  Reach-IsDrained (onward r (inner st)) e =
      Inner-IsDrained st (Reach-IsDrained r (sym (Inner-main st) ∙ e))
  Reach-IsDrained (onward r (select i c x going offered took)) e =
      let (empty, returned) =
        Offered-IsDrained i c x (Reach-IsClosing sha256 codec unmarshal n db r) offered took e in
      record { empty = empty; returned = returned }

  exit-Exits :
      {taken : List Input} {s : System} (x : Exit)
      → Reach sha256 codec unmarshal n db taken s
      → s.main ≡ x
      → Exits s
  exit-Exits running r e = runs e
  exit-Exits {taken} {s} context_error r e =
      let run =
        Reach-select_loop sha256 codec unmarshal n db r
        ∙ ap (λ (y : Exit). some (s.consumer, y)) e in
      let (events, messages, answers) =
        shutdown_answers_all sha256 codec unmarshal n db taken s.consumer run in
      at_context e
        (λ p. omega (arith, Reach-accounted sha256 codec unmarshal n db r p, ap (count p) messages))
  exit-Exits {taken} {s} no_error r e =
      let d = Reach-IsDrained r e in
      at_close e (λ p. omega (
        arith,
        Reach-accounted sha256 codec unmarshal n db r p,
        ap (count p) d.empty,
        ap (λ f. count p (pending f)) d.returned,
      ))

  -- However the goroutines of Start interleave: when the loop has returned the context's error, every message
  -- that Fetch has delivered is answered once, in the channel or yet to be sent, and none is in the
  -- buffer; when it has returned nil, every one is answered once or still in the buffer.
  pub Reach-Exits :
      {taken : List Input} {s : System} → Reach sha256 codec unmarshal n db taken s → Exits s
  Reach-Exits {s = s} r = exit-Exits s.main r refl
