-- ===== src/Processor/Consumer/Progress.antt =====
-- Progress of the loop of Start of server/processor/consumer.go under a schedule with enough turns.
use facto.Base.{
  ℕ, ◌+◌, ◌/◌, ◌≡◌, ◌≤◌, ◌<◌, refl, ◌∙◌, ap, List, [], ◌∷◌, ◌++◌, Option, none, some, All, arith,
  length, length-append, ltb, leb, Bool-cases, inl, inr,
}
use facto.Go.Text.{Bytes}
use facto.Go.Sha.{Digest}
use facto.Go.Library.{Codec}
use facto.Processor.Event.{FactoEvent}
use facto.Processor.Storage.Batch.{Database}
use facto.Processor.Storage.Returns.{events_turns, by_facto_id_turns, by_session_turns}
use facto.Processor.Consumer.{
  Consumer, Msg, Environment, Input, Exit, cancelled, message, channel_closed, tick, context_error,
  no_error, running, new_consumer, reject, accept, flush, flush_pending, handle_message,
  handle_decoded, receive, select_loop, with_exit, proceed,
}
use facto.Processor.Consumer.Flush.{flush_returns}
use facto.Processor.Consumer.Roots.{flush-size, handle_message_bound}

-- The environment's schedule gives each goroutine a turn for every 50 events of `n`.
pub record IsPrompt (n : ℕ) (env : Environment) : Type 0 where
  pub for_events : (n + 49) / 50 ≤ events_turns env.schedule
  pub for_by_facto_id : (n + 49) / 50 ≤ by_facto_id_turns env.schedule
  pub for_by_session : (n + 49) / 50 ≤ by_session_turns env.schedule

abbrev pub HasPrompt : ℕ → Input → Type 0
HasPrompt n (cancelled env) = IsPrompt n env
HasPrompt n (message env m) = IsPrompt n env
HasPrompt n channel_closed = Unit {0}
HasPrompt n (tick env) = IsPrompt n env

module _ (sha256 : Digest) (codec : Codec) (unmarshal : Bytes → Option FactoEvent) (n : ℕ)
    (positive : 0 < n) where
  -- The buffer is below the batch size.
  pub record IsBelow (c : Consumer) : Type 0 where
    pub size : c.batch_size ≡ n
    pub below : length c.events < n

  prompt_flush :
      (env : Environment) (c : Consumer)
      → IsPrompt n env
      → length c.events ≤ n
      → (c' : Consumer) × (flush sha256 codec env c ≡ some c')
  prompt_flush env c p l =
      let (c', f, _) =
        flush_returns sha256 codec env c (omega (arith, p.for_events))
          (omega (arith, p.for_by_facto_id)) (omega (arith, p.for_by_session)) in
      (c', f)

  pub flush_pending_returns :
      (env : Environment) (c : Consumer)
      → IsPrompt n env
      → IsBelow c
      → (c' : Consumer) × (flush_pending sha256 codec env c ≡ some c') × IsBelow c'
  unfolding flush_pending
  flush_pending_returns env c p h = elim (Bool-cases (ltb 0 (length c.events))) [
    | inr f ↦ (c, rw f refl, h)
    | inl t ↦
        let (c', f) = prompt_flush env c p (omega (arith, h.below)) in
        let (same, none_left) = flush-size sha256 codec unmarshal env c c' f in
        (c', rw t f, record { size = same ∙ h.size; below = omega (arith, none_left) })
  ]

  handle_decoded_returns :
      (env : Environment) (m : Msg) (c : Consumer) (o : Option FactoEvent)
      → IsPrompt n env
      → IsBelow c
      → (c' : Consumer) × (handle_decoded sha256 codec unmarshal env m c o ≡ some c')
  unfolding accept
  handle_decoded_returns env m c none p h = (reject m c, refl)
  handle_decoded_returns env m c (some e) p h =
      elim (Bool-cases (leb c.batch_size (length (c.events ++ e ∷ [])))) [
        | inr f ↦ (accept m e c, rw f refl)
        | inl t ↦
            let (c', f) =
              prompt_flush env (accept m e c) p
                (omega (arith, h.below, length-append c.events (e ∷ []))) in
            (c', rw t f)
      ]

  pub handle_message_returns :
      (env : Environment) (m : Msg) (c : Consumer)
      → IsPrompt n env
      → IsBelow c
      → (c' : Consumer) × (handle_message sha256 codec unmarshal env m c ≡ some c') × IsBelow c'
  unfolding handle_message
  handle_message_returns env m c p h =
      let (c', f) = handle_decoded_returns env m c (unmarshal m.payload) p h in
      let (same, below) =
        handle_message_bound sha256 codec unmarshal env m c' c (omega (arith, h.size, positive))
          (omega (arith, h.size, h.below)) f in
      (c', f, record { size = same ∙ h.size; below = omega (arith, same, h.size, below) })

  receive_returns :
      (i : Input) (c : Consumer)
      → HasPrompt n i
      → IsBelow c
      → (c' : Consumer) × (x : Exit) × (receive sha256 codec unmarshal i c ≡ some (c', x))
        × IsBelow c'
  unfolding receive
  receive_returns (cancelled env) c p h =
      let (c', f, b) = flush_pending_returns env c p h in
      (c', context_error, ap (with_exit context_error) f, b)
  receive_returns (message env m) c p h =
      let (c', f, b) = handle_message_returns env m c p h in
      (c', running, ap (with_exit running) f, b)
  receive_returns channel_closed c p h = (c, no_error, refl, h)
  receive_returns (tick env) c p h =
      let (c', f, b) = flush_pending_returns env c p h in (c', running, ap (with_exit running) f, b)

  go_on :
      {o : Option (Consumer × Exit)} (next : Consumer → Option (Consumer × Exit)) (d : Consumer)
      (x : Exit)
      → IsBelow d
      → o ≡ proceed next (some (d, x))
      → (c' : Consumer) × (y : Exit) × (next d ≡ some (c', y)) × IsBelow c'
      → (c' : Consumer) × (y : Exit) × (o ≡ some (c', y)) × IsBelow c'
  go_on next d running b e (c', y, f, b') = (c', y, e ∙ f, b')
  go_on next d context_error b e later = (d, context_error, e, b)
  go_on next d no_error b e later = (d, no_error, e, b)

  loop_returns :
      (inputs : List Input) (c : Consumer)
      → All (HasPrompt n) inputs
      → IsBelow c
      → (c' : Consumer) × (x : Exit) × (select_loop sha256 codec unmarshal inputs c ≡ some (c', x))
        × IsBelow c'
  unfolding select_loop
  loop_returns [] c p h = (c, running, refl, h)
  loop_returns (i ∷ rest) c p h =
      let (d, x, f, b) = receive_returns i c p.0 h in
      let next = select_loop sha256 codec unmarshal rest in
      go_on next d x b (ap (proceed next) f) (loop_returns rest d p.1 b)

  -- With a positive batch size, and if the schedule of every input gives each goroutine of StoreBatch a
  -- turn for every 50 events of a full batch, the loop of a new consumer gets through any inputs: no
  -- flush hangs, and at the end fewer events are buffered than the batch size.
  pub select_loop_returns :
      (db : Database) (inputs : List Input)
      → All (HasPrompt n) inputs
      → (c : Consumer) × (x : Exit) × (select_loop sha256 codec unmarshal inputs (new_consumer n db)
          ≡ some (c, x))
        × (length c.events < n)
  unfolding new_consumer
  select_loop_returns db inputs p =
      let (c, x, f, b) =
        loop_returns inputs (new_consumer n db) p (record { size = refl; below = positive }) in
      (c, x, f, b.below)
