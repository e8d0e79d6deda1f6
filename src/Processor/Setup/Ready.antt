-- ===== src/Processor/Setup/Ready.antt =====
-- What the set-up of server/processor/consumer.go leaves on a server of JetStream.
use facto.Base.{ℕ, ◌≡◌, ◌≢◌, Option, none, some, true, false, ◌⊎◌, inl, inr}
use facto.Go.Text.{Bytes}
use facto.Go.Env.{Env}
use facto.Processor.Storage.Batch.{Error}
use facto.Processor.Setup.{
  StreamConfig, ConsumerConfig, JetStream, events_stream, durable_name, is_reset, consumer_config,
}

-- A durable consumer on the server, and how far it has delivered.
pub record Durable : Type 0 where
  pub config : ConsumerConfig
  pub delivered : ℕ

abbrev pub delivered_by : Option Durable → ℕ
delivered_by none = 0
delivered_by (some d) = d.delivered

-- What can be seen of a server's state: the streams by name, and the consumers by stream and name.
pub record View (S : Type 0) : Type 0 where
  pub streams : S → Bytes → Option StreamConfig
  pub consumers : S → Bytes → Bytes → Option Durable

-- Only the stream `n` and its consumer `d` can differ.
pub record Differs {S : Type 0} (v : View S) (n d : Bytes) (s t : S) : Type 0 where
  pub streams : (a : Bytes) → a ≢ n → v.streams t a ≡ v.streams s a
  pub consumers : (a b : Bytes) → (a ≢ n) ⊎ (b ≢ d) → v.consumers t a b ≡ v.consumers s a b

-- What JetStream documents of the four calls: a stream that is found exists, a created one has its
-- configuration, a deleted consumer is gone, and a consumer that is created or updated has the
-- configuration given and delivers from where it was, or from the start. None touches what it is not
-- called on; a lookup changes nothing, and neither call on consumers changes a stream.
pub record IsServer {S : Type 0} (js : JetStream S) (v : View S) : Type 0 where
  pub find_keeps :
      (n : Bytes) (s : S)
      → (v.streams (js.find_stream n s).0 ≡ v.streams s)
        × (v.consumers (js.find_stream n s).0 ≡ v.consumers s)
  pub find_found : (n : Bytes) (s : S) → (js.find_stream n s).1 ≡ none → v.streams s n ≢ none
  pub create_keeps :
      (cfg : StreamConfig) (s : S)
      → ((a : Bytes) → a ≢ cfg.name → v.streams (js.create_stream cfg s).0 a ≡ v.streams s a)
        × (v.consumers (js.create_stream cfg s).0 ≡ v.consumers s)
  pub create_created :
      (cfg : StreamConfig) (s : S)
      → (js.create_stream cfg s).1 ≡ none
      → v.streams (js.create_stream cfg s).0 cfg.name ≡ some cfg
  pub delete_keeps :
      (n d : Bytes) (s : S)
      → (v.streams (js.delete_consumer n d s).0 ≡ v.streams s)
        × ((a b : Bytes)
            → (a ≢ n) ⊎ (b ≢ d)
            → v.consumers (js.delete_consumer n d s).0 a b ≡ v.consumers s a b)
  pub delete_deleted :
      (n d : Bytes) (s : S)
      → (js.delete_consumer n d s).1 ≡ none
      → v.consumers (js.delete_consumer n d s).0 n d ≡ none
  pub update_keeps :
      (n : Bytes) (cfg : ConsumerConfig) (s : S)
      → (v.streams (js.create_or_update_consumer n cfg s).0 ≡ v.streams s)
        × ((a b : Bytes)
            → (a ≢ n) ⊎ (b ≢ cfg.durable)
            → v.consumers (js.create_or_update_consumer n cfg s).0 a b ≡ v.consumers s a b)
  pub update_updated :
      (n : Bytes) (cfg : ConsumerConfig) (s : S)
      → (js.create_or_update_consumer n cfg s).1 ≡ none
      → v.consumers (js.create_or_update_consumer n cfg s).0 n cfg.durable
        ≡ some (record { config = cfg; delivered = delivered_by (v.consumers s n cfg.durable) })

module _ {S : Type 0} (js : JetStream S) (v : View S) where
  -- The stream exists, as it was or as the code creates it; the durable consumer has the configuration of
  -- the environment, and delivers from where it was, or, if a reset is asked for, from the start unless
  -- the deletion failed.
  pub record IsReady (env : Env) (batch_size : ℕ) (s t : S) : Type 0 where
    pub delivered : ℕ
    pub stream :
        ((v.streams t events_stream.name ≡ v.streams s events_stream.name)
          × (v.streams s events_stream.name ≢ none))
        ⊎ (v.streams t events_stream.name ≡ some events_stream)
    pub configured :
        v.consumers t events_stream.name (durable_name env)
        ≡ some (record { config = consumer_config env batch_size; delivered = delivered })
    pub resumed :
        is_reset env ≡ false
        → delivered ≡ delivered_by (v.consumers s events_stream.name (durable_name env))
    pub restarted :
        is_reset env ≡ true
        → (delivered ≡ 0)
          ⊎ ((u : S) × (e : Error) × ((js.delete_consumer events_stream.name (durable_name env) u).1
                ≡ some e))

  -- How the set-up ends: with the error of the call that refused it, or ready.
  pub data Outcome (env : Env) (batch_size : ℕ) (s t : S) : Error ⊎ ConsumerConfig → Type 0 where
    no_stream :
        (e f : Error)
        → (js.find_stream events_stream.name s).1 ≡ some f
        → js.create_stream events_stream (js.find_stream events_stream.name s).0 ≡ (t, some e)
        → Outcome env batch_size s t (inl e)
    no_consumer :
        (u : S) (e : Error)
        → js.create_or_update_consumer events_stream.name (consumer_config env batch_size) u
          ≡ (t, some e)
        → Outcome env batch_size s t (inl e)
    ready :
        IsReady env batch_size s t
        → Outcome env batch_size s t (inr (consumer_config env batch_size))
