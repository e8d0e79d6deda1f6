-- ===== src/Processor/Setup/Outcomes.antt =====
-- How the set-up of server/processor/consumer.go can end, on a server that keeps what JetStream documents.
use facto.Base.{ℕ, ◌≡◌, ◌≢◌, Option, none, some, true, false, ◌⊎◌}
use facto.Go.Text.{Bytes}
use facto.Go.Env.{Env}
use facto.Processor.Storage.Batch.{Error}
use facto.Processor.Setup.{
  ConsumerConfig, JetStream, events_stream, durable_name, is_reset, consumer_config,
}
use facto.Processor.Setup.Ready.{View, Differs, IsServer, Outcome}

module _ {S : Type 0} (js : JetStream S) (v : View S) (h : IsServer js v) where
  -- After the lookup or the creation of the stream.
  record Got (s : S) (o : S × Option Error) : Type 0 where
    same_consumers : v.consumers o.0 ≡ v.consumers s
    others : (a : Bytes) → a ≢ events_stream.name → v.streams o.0 a ≡ v.streams s a
    there :
        o.1 ≡ none
        → ((v.streams o.0 events_stream.name ≡ v.streams s events_stream.name)
            × (v.streams s events_stream.name ≢ none))
          ⊎ (v.streams o.0 events_stream.name ≡ some events_stream)
    refused :
        (e : Error)
        → o.1 ≡ some e
        → (f : Error) × ((js.find_stream events_stream.name s).1 ≡ some f)
          × (js.create_stream events_stream (js.find_stream events_stream.name s).0 ≡ o)

  -- After the deletion that a reset asks for.
  record Reset (env : Env) (s t : S) : Type 0 where
    streams : v.streams t ≡ v.streams s
    others :
        (a b : Bytes)
        → (a ≢ events_stream.name) ⊎ (b ≢ durable_name env)
        → v.consumers t a b ≡ v.consumers s a b
    kept : is_reset env ≡ false → v.consumers t ≡ v.consumers s
    gone :
        is_reset env ≡ true
        → (v.consumers t events_stream.name (durable_name env) ≡ none)
          ⊎ ((u : S) × (e : Error) × ((js.delete_consumer events_stream.name (durable_name env) u).1
                ≡ some e))

  module _ (env : Env) (n : ℕ) (s : S) where
    -- A state and a result that the set-up can end with.
    abbrev Ends : S × (Error ⊎ ConsumerConfig) → Type 0
    Ends p = Outcome js v env n s p.0 p.1 × Differs v events_stream.name (durable_name env) s p.0

    -- The call that creates or updates the consumer, after the two steps before it.
    abbrev Updates : S → S → S × Option Error → Type 0
    Updates u w p =
        Got s (u, none)
        × Reset env u w
        × (js.create_or_update_consumer events_stream.name (consumer_config env n) w ≡ p)
