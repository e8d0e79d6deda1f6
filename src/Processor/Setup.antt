-- ===== src/Processor/Setup.antt =====
-- server/processor/consumer.go: the set-up in Start of the stream and of the durable consumer, before its
-- loops. What JetStream does is a parameter.
pub mod Ready
pub mod Outcomes
use facto.Base.{
  ℕ, ◌*◌, ◌%◌, ◌^◌, List, [], ◌∷◌, Option, none, some, Bool, true, false, if◌then◌else◌, ◌⊎◌, inl,
  inr, eq_bytes,
}
use facto.Base.Int.{ℤ}
use facto.Go.Text.{Bytes, codes}
use facto.Go.Env.{Env, text_or}
use facto.Processor.Config.{to_int64}
use facto.Processor.Storage.Batch.{Error}

pub data Retention : Type 0 where
  limits_policy interest_policy work_queue_policy : Retention

pub data StorageType : Type 0 where
  file_storage memory_storage : StorageType

pub data AckPolicy : Type 0 where
  ack_explicit ack_all ack_none : AckPolicy

-- The fields of `jetstream.StreamConfig` that the code sets.
pub record StreamConfig : Type 0 where
  pub name : Bytes
  pub subjects : List Bytes
  pub retention : Retention
  pub storage : StorageType

-- The fields of `jetstream.ConsumerConfig` that the code sets; `ack_wait` is in nanoseconds.
pub record ConsumerConfig : Type 0 where
  pub durable : Bytes
  pub filter_subject : Bytes
  pub ack_policy : AckPolicy
  pub max_ack_pending : ℤ
  pub ack_wait : ℕ

-- The calls of JetStream on a server's state. A stream is known by its name; `delete_consumer` and
-- `create_or_update_consumer` are methods of one.
pub record JetStream (S : Type 0) : Type 0 where
  pub find_stream : Bytes → S → S × Option Error
  pub create_stream : StreamConfig → S → S × Option Error
  pub delete_consumer : Bytes → Bytes → S → S × Option Error
  pub create_or_update_consumer : Bytes → ConsumerConfig → S → S × Option Error

unfoldable pub events_stream : StreamConfig
events_stream = record {
  name = codes "FACTO_EVENTS";
  subjects = codes "facto.events.>" ∷ [];
  retention = work_queue_policy;
  storage = file_storage;
}

abbrev pub filter_of : Env → Bytes
filter_of env = text_or (codes "facto.events.>") (env (codes "FILTER_SUBJECT"))

abbrev pub durable_name : Env → Bytes
durable_name env = text_or (codes "processor") (env (codes "DURABLE_NAME"))

-- `os.Getenv("RESET_CONSUMER") == "true"`
abbrev pub is_reset : Env → Bool
is_reset env = eq_bytes (env (codes "RESET_CONSUMER")) (codes "true")

unfoldable pub consumer_config : Env → ℕ → ConsumerConfig
consumer_config env batch_size = record {
  durable = durable_name env;
  filter_subject = filter_of env;
  ack_policy = ack_explicit;
  max_ack_pending = to_int64 (batch_size * 2 % 2 ^ 64);
  ack_wait = 30 * 1000000000;
}

module _ {S : Type 0} (js : JetStream S) where
  -- The stream is created if it is not found.
  abbrev pub created_unless_found : S × Option Error → S × Option Error
  created_unless_found (s, none) = (s, none)
  created_unless_found (s, some e) = js.create_stream events_stream s

  unfoldable pub get_or_create_stream : S → S × Option Error
  unfolding events_stream
  get_or_create_stream s = created_unless_found (js.find_stream events_stream.name s)

  -- An error of the deletion is only logged.
  unfoldable pub delete_if_reset : Env → S → S
  unfolding events_stream
  delete_if_reset env s =
      if is_reset env then (js.delete_consumer events_stream.name (durable_name env) s).0 else s

  -- The consumer that Fetch is called on, by its configuration, or the error that Start returns.
  abbrev pub consumer_or_error : ConsumerConfig → S × Option Error → S × (Error ⊎ ConsumerConfig)
  consumer_or_error cfg (s, some e) = (s, inl e)
  consumer_or_error cfg (s, none) = (s, inr cfg)

  abbrev pub after_stream : Env → ℕ → S × Option Error → S × (Error ⊎ ConsumerConfig)
  after_stream env batch_size (s, some e) = (s, inl e)
  after_stream env batch_size (s, none) = consumer_or_error (consumer_config env batch_size) (
      js.create_or_update_consumer events_stream.name (consumer_config env batch_size)
        (delete_if_reset env s))

  -- Start up to its loops.
  unfoldable pub set_up : Env → ℕ → S → S × (Error ⊎ ConsumerConfig)
  unfolding events_stream get_or_create_stream consumer_config delete_if_reset
  set_up env batch_size s = after_stream env batch_size (get_or_create_stream s)
