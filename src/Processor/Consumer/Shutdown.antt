-- ===== src/Processor/Consumer/Shutdown.antt =====
-- What the end of the context leaves of the consumer of server/processor/consumer.go.
use facto.Base.{
  ℕ, ◌≡◌, refl, ap, ◌⊎◌, inl, inr, List, [], ◌∷◌, map, Option, none, some, Bool, ltb, Bool-cases,
  length, ltb→le, arith, subst,
}
use facto.Go.Text.{Bytes}
use facto.Go.Sha.{Digest}
use facto.Go.Library.{Codec}
use facto.Processor.Event.{FactoEvent}
use facto.Processor.Storage.Batch.{Database}
use facto.Processor.Consumer.{
  Consumer, Msg, Environment, Input, Exit, cancelled, message, channel_closed, tick, context_error,
  no_error, running, new_consumer, flush_pending, receive, select_loop, with_exit, proceed,
}
use facto.Processor.Consumer.Loop.{received_from}
use facto.Processor.Consumer.Invariant.{count, replied, select_loop-IsConsistent}
use facto.Processor.Consumer.Roots.{flush-size}

proceed-ended_so :
    (next : Consumer → Option (Consumer × Exit)) (o : Option (Consumer × Exit)) (c : Consumer)
    → proceed next o ≡ some (c, context_error)
    → (o ≡ some (c, context_error)) ⊎ ((d : Consumer) × (next d ≡ some (c, context_error)))
proceed-ended_so next none c h = absurd (cc h)
proceed-ended_so next (some (d, running)) c h = inr (d, h)
proceed-ended_so next (some (d, context_error)) c h = inl h
proceed-ended_so next (some (d, no_error)) c h = absurd (cc h)

pub with_exit-some :
    (x y : Exit) (o : Option Consumer) (c : Consumer)
    → with_exit x o ≡ some (c, y)
    → (o ≡ some c) × (x ≡ y)
with_exit-some x y none c h = absurd (cc h)
with_exit-some x y (some d) c h = (cc h, cc h)

length-nil : (es : List FactoEvent) → length es ≡ 0 → es ≡ []
length-nil [] h = refl
length-nil (e ∷ es) h = absurd (omega arith)

module _ (sha256 : Digest) (codec : Codec) (unmarshal : Bytes → Option FactoEvent) where
  pub flush_pending-nil :
      (env : Environment) (c c' : Consumer)
      → flush_pending sha256 codec env c ≡ some c'
      → c'.events ≡ []
  unfolding flush_pending
  flush_pending-nil env c c' h = elim (Bool-cases (ltb 0 (length c.events))) [
    | inl t ↦ length-nil c'.events (flush-size sha256 codec unmarshal env c c' (rw t at h)).1
    | inr f ↦
        let same : c ≡ c' = cc (rw f at h) in
        subst (λ (d : Consumer). d.events ≡ []) same
          (length-nil c.events (omega (arith, ltb→le 0 (length c.events) f)))
  ]

  receive-context_error :
      (i : Input) (c c' : Consumer)
      → receive sha256 codec unmarshal i c ≡ some (c', context_error)
      → c'.events ≡ []
  unfolding receive
  receive-context_error (cancelled env) c c' h =
      flush_pending-nil env c c' (with_exit-some context_error context_error _ c' h).0
  receive-context_error (message env m) c c' h =
      absurd (cc (with_exit-some running context_error _ c' h).1)
  receive-context_error channel_closed c c' h = absurd (cc h)
  receive-context_error (tick env) c c' h =
      absurd (cc (with_exit-some running context_error _ c' h).1)

  loop-context_error :
      (inputs : List Input) (c c' : Consumer)
      → select_loop sha256 codec unmarshal inputs c ≡ some (c', context_error)
      → c'.events ≡ []
  unfolding select_loop
  loop-context_error [] c c' h = absurd (cc h)
  loop-context_error (i ∷ rest) c c' h =
      elim (proceed-ended_so (select_loop sha256 codec unmarshal rest)
        (receive sha256 codec unmarshal i c) c' h) [
          | inl r ↦ receive-context_error i c c' r
          | inr (d, f) ↦ loop-context_error rest d c' f
        ]

  pub map-nil :
      (ms : List Msg) (es : List FactoEvent)
      → map (λ m. unmarshal m.payload) ms ≡ map (λ e. some e) es
      → es ≡ []
      → ms ≡ []
  map-nil [] es h e = refl
  map-nil (m ∷ ms) [] h e = absurd (cc h)
  map-nil (m ∷ ms) (x ∷ es) h e = absurd (cc e)

  -- When Start ends because its context has ended, nothing is buffered, and every message that the
  -- consumer has received is answered exactly once: as many of the messages received satisfy a test as of
  -- the messages answered, whatever the test.
  pub shutdown_answers_all :
      (batch_size : ℕ) (db : Database) (inputs : List Input) (c : Consumer)
      → select_loop sha256 codec unmarshal inputs (new_consumer batch_size db)
        ≡ some (c, context_error)
      → (c.events ≡ [])
        × (c.messages ≡ [])
        × ((p : Msg → Bool) → count p (received_from inputs) ≡ count p (replied c.replies))
  shutdown_answers_all batch_size db inputs c h =
      let k =
        select_loop-IsConsistent unmarshal sha256 codec batch_size db inputs c context_error h in
      let events_nil = loop-context_error inputs (new_consumer batch_size db) c h in
      let messages_nil = map-nil c.messages c.events k.decoded events_nil in
      (events_nil, messages_nil, λ p. omega (arith, k.answered p, ap (count p) messages_nil))
