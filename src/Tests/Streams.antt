-- ===== src/Tests/Streams.antt =====
-- Set-ups of the stream and the consumer of server/processor/consumer.go on a small server.
use facto.Base.{◌≡◌, refl, [], Option, none, some, inr, if◌then◌else◌, eq_bytes}
use facto.Base.Int.{pos}
use facto.Go.Text.{Bytes, codes}
use facto.Go.Env.{Env}
use facto.Processor.Config.{to_int64}
use facto.Processor.Storage.Batch.{Error}
use facto.Processor.Setup.{
  ack_explicit, StreamConfig, JetStream, events_stream, consumer_config, get_or_create_stream,
  delete_if_reset, set_up,
}
use facto.Processor.Setup.Ready.{Durable, delivered_by, View}

record Server : Type 0 where
  streams : Bytes → Option StreamConfig
  consumers : Bytes → Bytes → Option Durable

abbrev put : {A : Type 0} → Bytes → A → (Bytes → A) → Bytes → A
put n x f a = if eq_bytes a n then x else f a

abbrev missing_unless : Option StreamConfig → Option Error
missing_unless none = some 404
missing_unless (some c) = none

abbrev toy_server : JetStream Server
toy_server = record {
  find_stream = λ n s. (s, missing_unless (s.streams n));
  create_stream = λ cfg s. (record s { streams = put cfg.name (some cfg) s.streams }, none);
  delete_consumer =
      λ n d s. (record s { consumers = put n (put d none (s.consumers n)) s.consumers }, none);
  create_or_update_consumer = λ n cfg s. (
    record s {
      consumers =
          put n
            (put cfg.durable
              (some (record { config = cfg; delivered = delivered_by (s.consumers n cfg.durable) }))
              (s.consumers n))
            s.consumers;
    },
    none,
  );
}

abbrev toy_view : View Server
toy_view = record { streams = λ s. s.streams; consumers = λ s. s.consumers }

-- A filter for one agent, and a reset.
abbrev settings : Env
settings name =
    if eq_bytes name (codes "FILTER_SUBJECT")
    then codes "facto.events.a"
    else if eq_bytes name (codes "RESET_CONSUMER")
    then codes "true"
    else []

-- The stream is missing, and a consumer of that name has delivered 7 messages.
abbrev server : Server
server = record {
  streams = λ n. none;
  consumers = λ n d. some (record { config = consumer_config (λ name. []) 10; delivered = 7 });
}

set_up-config :
    (set_up toy_server settings 5 server).1
    ≡ inr (record {
      durable = codes "processor";
      filter_subject = codes "facto.events.a";
      ack_policy = ack_explicit;
      max_ack_pending = pos 10;
      ack_wait = 30000000000;
    })
unfolding set_up get_or_create_stream delete_if_reset consumer_config to_int64 events_stream
    eq_bytes
set_up-config = refl

set_up-restarted :
    delivered_by
      ((set_up toy_server settings 5 server).0.consumers (codes "FACTO_EVENTS") (codes "processor"))
    ≡ 0
unfolding set_up get_or_create_stream delete_if_reset consumer_config to_int64 events_stream
    eq_bytes
set_up-restarted = refl
