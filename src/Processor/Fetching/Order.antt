-- ===== src/Processor/Fetching/Order.antt =====
-- The messages between Fetch and the consumer's buffer in Start of server/processor/consumer.go.
use facto.Base.{
  Option, ℕ, ◌+◌, ◌≡◌, refl, ◌∙◌, sym, ap, List, [], ◌∷◌, ◌++◌, some, append-nil, append_assoc,
  arith, Bool,
}
use facto.Go.Text.{Bytes}
use facto.Go.Sha.{Digest}
use facto.Go.Library.{Codec}
use facto.Processor.Event.{FactoEvent}
use facto.Processor.Storage.Batch.{Database}
use facto.Processor.Consumer.{Msg, Input, Exit, new_consumer}
use facto.Processor.Consumer.Loop.{received_from}
use facto.Processor.Consumer.Invariant.{count, count-append, replied, select_loop-IsConsistent}
use facto.Processor.Fetching.{
  System, pending, initial, Inner, cancel, fetch, fetch_failed, send, send_on_closed, sent_all,
  close, close_again, Offered, context_done, received, drained, ticked, inner, select, Reach, begin,
  onward,
}
use facto.Processor.Fetching.Refine.{Reach-select_loop, received_from-append}

-- The messages that are fetched and not yet taken by the loop, in order.
abbrev pub waiting : System → List Msg
waiting s = s.queue ++ pending s.fetcher

-- Up to `taken`, every fetched message was taken or waits.
abbrev InOrder : List Msg → System → Type 0
InOrder taken s = s.fetched ≡ taken ++ waiting s

Inner-InOrder :
    {n : ℕ} {s t : System} (taken : List Msg) → Inner n s t → InOrder taken s → InOrder taken t
Inner-InOrder taken cancel h = h
Inner-InOrder {s = s} taken (fetch ms p d l) h =
    ap (λ l. l ++ ms) (h ∙ ap (λ f. taken ++ (s.queue ++ pending f)) p)
    ∙ ap (λ l. (taken ++ l) ++ ms) (append-nil s.queue)
    ∙ append_assoc taken s.queue ms
Inner-InOrder taken (fetch_failed p d) h = h
Inner-InOrder {s = s} taken (send m ms p c l) h =
    h
    ∙ ap (λ f. taken ++ (s.queue ++ pending f)) p
    ∙ ap (λ l. taken ++ l) (sym (append_assoc s.queue (m ∷ []) ms))
Inner-InOrder taken (send_on_closed m ms p d) h = h
Inner-InOrder {s = s} taken (sent_all p) h = h ∙ ap (λ f. taken ++ (s.queue ++ pending f)) p
Inner-InOrder {s = s} taken (close p d c) h = h ∙ ap (λ f. taken ++ (s.queue ++ pending f)) p
Inner-InOrder taken (close_again p d c) h = h

Offered-InOrder :
    (taken rest : List Msg) (i : Input) (s : System) (queue : List Msg)
    → Offered s i queue
    → s.fetched ≡ taken ++ (s.queue ++ rest)
    → s.fetched ≡ (taken ++ received_from (i ∷ [])) ++ (queue ++ rest)
Offered-InOrder taken rest i s queue (context_done env d) h =
    h ∙ ap (λ l. l ++ (s.queue ++ rest)) (sym (append-nil taken))
Offered-InOrder taken rest i s queue (received env m left e) h =
    h ∙ ap (λ q. taken ++ (q ++ rest)) e ∙ sym (append_assoc taken (m ∷ []) (left ++ rest))
Offered-InOrder taken rest i s queue (drained e c) h =
    h ∙ ap (λ l. l ++ (s.queue ++ rest)) (sym (append-nil taken))
Offered-InOrder taken rest i s queue (ticked env) h =
    h ∙ ap (λ l. l ++ (s.queue ++ rest)) (sym (append-nil taken))

module _ (sha256 : Digest) (codec : Codec) (unmarshal : Bytes → Option FactoEvent) (n : ℕ)
    (db : Database) where
  -- The channel keeps the order of the messages and loses none: those that Fetch has delivered are those
  -- that the loop has received, then those in the channel, then those yet to be sent.
  pub Reach-InOrder :
      {taken : List Input} {s : System}
      → Reach sha256 codec unmarshal n db taken s
      → s.fetched ≡ received_from taken ++ (s.queue ++ pending s.fetcher)
  unfolding initial
  Reach-InOrder (begin pos) = refl
  Reach-InOrder (onward {taken} {inputs} {s} {t} r (inner st)) =
      Inner-InOrder (received_from taken) st (Reach-InOrder r)
      ∙ ap (λ is. received_from is ++ waiting t) (sym (append-nil taken))
  Reach-InOrder (onward {taken} {inputs} {s} {t} r (select {queue} i c x going offered took)) =
      let before =
        Reach-select_loop sha256 codec unmarshal n db r
        ∙ ap (λ (y : Exit). some (s.consumer, y)) going in
      Offered-InOrder (received_from taken) (pending s.fetcher) i s queue offered (Reach-InOrder r)
      ∙ ap (λ l. l ++ (queue ++ pending s.fetcher))
          (sym (
            received_from-append sha256 codec unmarshal taken i (new_consumer n db) s.consumer
              before))

  -- Of the messages that Fetch has delivered, as many satisfy a test as of those answered, buffered by the
  -- consumer, held by the channel and yet to be sent, each counted once.
  pub Reach-accounted :
      {taken : List Input} {s : System}
      → Reach sha256 codec unmarshal n db taken s
      → (p : Msg → Bool)
      → count p s.fetched
        ≡ count p (replied s.consumer.replies)
          + count p s.consumer.messages
          + count p s.queue
          + count p (pending s.fetcher)
  Reach-accounted {taken} {s} r p =
      let k =
        select_loop-IsConsistent unmarshal sha256 codec n db taken s.consumer s.main
          (Reach-select_loop sha256 codec unmarshal n db r) in
      omega (
        arith,
        ap (count p) (Reach-InOrder r),
        count-append p (received_from taken) (s.queue ++ pending s.fetcher),
        count-append p s.queue (pending s.fetcher),
        k.answered p,
      )
