-- ===== src/Processor/Consumer/Loop.antt =====
-- The induction over the loop of Start of server/processor/consumer.go: what every flush, every rejected
-- and every accepted message keeps holds whenever the loop pauses or ends.
use facto.Base.{
  List, [], ◌∷◌, ◌++◌, Option, none, some, Bool, true, false, ◌≡◌, refl, sym, subst, append_assoc,
  append-nil, inl, inr, if◌then◌else◌,
}
use facto.Go.Text.{Bytes}
use facto.Go.Sha.{Digest}
use facto.Go.Library.{Codec}
use facto.Processor.Event.{FactoEvent}
use facto.Processor.Consumer.{
  Consumer, Msg, Environment, flush, flush_pending, reject, accept, handle_message, handle_decoded,
  Input, Exit, cancelled, message, channel_closed, tick, context_error, running, receive,
  select_loop, with_exit, proceed,
}
use facto.Processor.Consumer.Flush.{Flushed, flush-some}

-- The messages that the loop takes from the inputs, up to the one that ends it.
abbrev pub received_from : List Input → List Msg
received_from [] = []
received_from (cancelled env ∷ rest) = []
received_from (message env m ∷ rest) = m ∷ received_from rest
received_from (channel_closed ∷ rest) = []
received_from (tick env ∷ rest) = received_from rest

-- How the loop goes on after an input, read from its result.
proceed-ended :
    (next : Consumer → Option (Consumer × Exit)) (o : Option Consumer) (c' : Consumer) (x : Exit)
    → proceed next (with_exit context_error o) ≡ some (c', x)
    → o ≡ some c'
proceed-ended next none c' x h = absurd (cc h)
proceed-ended next (some c) c' x h = cc h

proceed-going :
    (next : Consumer → Option (Consumer × Exit)) (o : Option Consumer) (c' : Consumer) (x : Exit)
    → proceed next (with_exit running o) ≡ some (c', x)
    → (d : Consumer) × (o ≡ some d) × (next d ≡ some (c', x))
proceed-going next none c' x h = absurd (cc h)
proceed-going next (some d) c' x h = (d, refl, h)

module _ (sha256 : Digest) (codec : Codec) (unmarshal : Bytes → Option FactoEvent)
    (P : List Msg → Consumer → Type 0) where
  pub record Kept : Type 0 where
    pub on_flush :
        (received : List Msg) (env : Environment) (c c' : Consumer)
        → Flushed sha256 codec env c c'
        → P received c
        → P received c'
    pub on_reject :
        (received : List Msg) (m : Msg) (c : Consumer)
        → unmarshal m.payload ≡ none
        → P received c
        → P (received ++ m ∷ []) (reject m c)
    pub on_accept :
        (received : List Msg) (m : Msg) (e : FactoEvent) (c : Consumer)
        → unmarshal m.payload ≡ some e
        → P received c
        → P (received ++ m ∷ []) (accept m e c)

  module _ (k : Kept) where
    flush_if-Kept :
        (b : Bool) (received : List Msg) (env : Environment) (c c' : Consumer)
        → (if b then flush sha256 codec env c else some c) ≡ some c'
        → P received c
        → P received c'
    flush_if-Kept false received env c c' f h = subst (P received) (cc f) h
    flush_if-Kept true received env c c' f h = elim (flush-some sha256 codec env c c' f) [
      | inl (_, same) ↦ subst (P received) (sym same) h
      | inr x ↦ k.on_flush received env c c' x h
    ]

    flush_pending-Kept :
        (received : List Msg) (env : Environment) (c c' : Consumer)
        → flush_pending sha256 codec env c ≡ some c'
        → P received c
        → P received c'
    unfolding flush_pending
    flush_pending-Kept received env c c' f h = flush_if-Kept _ received env c c' f h

    handle_decoded-Kept :
        (received : List Msg) (env : Environment) (m : Msg) (c c' : Consumer)
        (o : Option FactoEvent)
        → unmarshal m.payload ≡ o
        → handle_decoded sha256 codec unmarshal env m c o ≡ some c'
        → P received c
        → P (received ++ m ∷ []) c'
    handle_decoded-Kept received env m c c' none d f h =
        subst (P (received ++ m ∷ [])) (cc f) (k.on_reject received m c d h)
    handle_decoded-Kept received env m c c' (some e) d f h =
        flush_if-Kept _ (received ++ m ∷ []) env (accept m e c) c' f
          (k.on_accept received m e c d h)

    handle_message-Kept :
        (received : List Msg) (env : Environment) (m : Msg) (c c' : Consumer)
        → handle_message sha256 codec unmarshal env m c ≡ some c'
        → P received c
        → P (received ++ m ∷ []) c'
    unfolding handle_message
    handle_message-Kept received env m c c' f h =
        handle_decoded-Kept received env m c c' (unmarshal m.payload) refl f h

    -- Whenever the loop pauses or ends, what is kept holds of the messages received.
    pub select_loop-Kept :
        (received : List Msg) (inputs : List Input) (c c' : Consumer) (x : Exit)
        → P received c
        → select_loop sha256 codec unmarshal inputs c ≡ some (c', x)
        → P (received ++ received_from inputs) c'
    unfolding select_loop receive
    select_loop-Kept received [] c c' x h f = rw append-nil (subst (P received) (cc f) h)
    select_loop-Kept received (cancelled env ∷ rest) c c' x h f =
        rw append-nil (flush_pending-Kept received env c c' (proceed-ended _ _ c' x f) h)
    select_loop-Kept received (message env m ∷ rest) c c' x h f =
        let (d, taken, on) = proceed-going _ _ c' x f in
        rw (← append_assoc received (m ∷ []) (received_from rest)) (
          select_loop-Kept (received ++ m ∷ []) rest d c' x
            (handle_message-Kept received env m c d taken h) on)
    select_loop-Kept received (channel_closed ∷ rest) c c' x h f =
        rw append-nil (subst (P received) (cc f) h)
    select_loop-Kept received (tick env ∷ rest) c c' x h f =
        let (d, taken, on) = proceed-going _ _ c' x f in
        select_loop-Kept received rest d c' x (flush_pending-Kept received env c d taken h) on
