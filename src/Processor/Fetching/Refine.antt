-- ===== src/Processor/Fetching/Refine.antt =====
-- The interleaved goroutines of Start of server/processor/consumer.go against its loop alone.
use facto.Base.{ℕ, ◌≡◌, refl, ◌∙◌, ap, List, [], ◌∷◌, ◌++◌, Option, none, some, append-nil}
use facto.Go.Text.{Bytes}
use facto.Go.Sha.{Digest}
use facto.Go.Library.{Codec}
use facto.Processor.Event.{FactoEvent}
use facto.Processor.Storage.Batch.{Database}
use facto.Processor.Consumer.{
  Consumer, Input, Exit, cancelled, message, channel_closed, tick, context_error, no_error, running,
  new_consumer, receive, select_loop, proceed, with_exit,
}
use facto.Processor.Consumer.Loop.{received_from}
use facto.Processor.Fetching.{
  System, initial, Inner, cancel, fetch, fetch_failed, send, send_on_closed, sent_all, close,
  close_again, inner, select, Reach, begin, onward,
}

proceed-running :
    (next : Consumer → Option (Consumer × Exit)) (o : Option (Consumer × Exit)) (c : Consumer)
    → proceed next o ≡ some (c, running)
    → (d : Consumer) × (o ≡ some (d, running)) × (next d ≡ some (c, running))
proceed-running next none c h = absurd (cc h)
proceed-running next (some (d, running)) c h = (d, refl, h)
proceed-running next (some (d, context_error)) c h = absurd (cc h)
proceed-running next (some (d, no_error)) c h = absurd (cc h)

proceed_nil : (o : Option (Consumer × Exit)) → proceed (λ c. some (c, running)) o ≡ o
proceed_nil none = refl
proceed_nil (some (d, running)) = refl
proceed_nil (some (d, context_error)) = refl
proceed_nil (some (d, no_error)) = refl

-- A goroutine that fetches, or the context, leaves the consumer and the loop alone.
pub Inner-consumer :
    {n : ℕ} {s t : System} → Inner n s t → (t.consumer ≡ s.consumer) × (t.main ≡ s.main)
Inner-consumer cancel = (refl, refl)
Inner-consumer (fetch ms p d l) = (refl, refl)
Inner-consumer (fetch_failed p d) = (refl, refl)
Inner-consumer (send m ms p d l) = (refl, refl)
Inner-consumer (send_on_closed m ms p d) = (refl, refl)
Inner-consumer (sent_all p) = (refl, refl)
Inner-consumer (close p d c) = (refl, refl)
Inner-consumer (close_again p d c) = (refl, refl)

module _ (sha256 : Digest) (codec : Codec) (unmarshal : Bytes → Option FactoEvent) where
  select_loop-append :
      (taken : List Input) (i : Input) (c d : Consumer)
      → select_loop sha256 codec unmarshal taken c ≡ some (d, running)
      → select_loop sha256 codec unmarshal (taken ++ i ∷ []) c ≡ receive sha256 codec unmarshal i d
  unfolding select_loop
  select_loop-append [] i c d h =
      let same : c ≡ d = cc h in
      proceed_nil (receive sha256 codec unmarshal i c) ∙ ap (receive sha256 codec unmarshal i) same
  select_loop-append (j ∷ rest) i c d h =
      let (e, taken, on) =
        proceed-running (select_loop sha256 codec unmarshal rest)
          (receive sha256 codec unmarshal j c) d h in
      ap (proceed (select_loop sha256 codec unmarshal (rest ++ i ∷ []))) taken
      ∙ select_loop-append rest i e d on

  with_exit-running :
      (x : Exit) (o : Option Consumer) (d : Consumer)
      → with_exit x o ≡ some (d, running)
      → x ≡ running
  with_exit-running x none d h = absurd (cc h)
  with_exit-running x (some e) d h = cc h

  -- While the loop runs on, none of its inputs has ended it, so all messages among them were received.
  pub received_from-append :
      (taken : List Input) (i : Input) (c d : Consumer)
      → select_loop sha256 codec unmarshal taken c ≡ some (d, running)
      → received_from (taken ++ i ∷ []) ≡ received_from taken ++ received_from (i ∷ [])
  unfolding select_loop receive
  received_from-append [] i c d h = refl
  received_from-append (cancelled env ∷ rest) i c d h =
      let (e, taken, on) = proceed-running (select_loop sha256 codec unmarshal rest) _ d h in
      absurd (cc (with_exit-running context_error _ e taken))
  received_from-append (message env m ∷ rest) i c d h =
      let (e, taken, on) = proceed-running (select_loop sha256 codec unmarshal rest) _ d h in
      ap (λ l. m ∷ l) (received_from-append rest i e d on)
  received_from-append (channel_closed ∷ rest) i c d h = absurd (cc h)
  received_from-append (tick env ∷ rest) i c d h =
      let (e, taken, on) = proceed-running (select_loop sha256 codec unmarshal rest) _ d h in
      received_from-append rest i e d on

  module _ (n : ℕ) (db : Database) where
    pub Reach-select_loop :
        {taken : List Input} {s : System}
        → Reach sha256 codec unmarshal n db taken s
        → select_loop sha256 codec unmarshal taken (new_consumer n db) ≡ some (s.consumer, s.main)
    unfolding initial select_loop
    Reach-select_loop (begin pos) = refl
    Reach-select_loop (onward {taken} {inputs} {s} {t} r (inner st)) =
        let (same, alike) = Inner-consumer st in
        ap (λ is. select_loop sha256 codec unmarshal is (new_consumer n db)) (append-nil taken)
        ∙ Reach-select_loop r
        ∙ cc (same, alike)
    Reach-select_loop (onward {taken} {inputs} {s} {t} r (select i c x going offered took)) =
        select_loop-append taken i (new_consumer n db) s.consumer
          (Reach-select_loop r ∙ ap (λ (y : Exit). some (s.consumer, y)) going)
        ∙ took
