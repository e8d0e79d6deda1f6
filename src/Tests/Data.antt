-- ===== src/Tests/Data.antt =====
-- The data of the tests: a digest, a codec and a decoder of events that are simple enough to compute with,
-- and a run of the consumer that flushes one message and rejects another.
use facto.Base.{
  ℕ, zero, suc, ◌+◌, ◌*◌, ◌%◌, refl, arith, List, [], ◌∷◌, Option, none, some, replicate,
}
use facto.Base.Int.{pos}
use facto.Go.Text.{Bytes, AreBytes, codes}
use facto.Go.Sha.{Digest}
use facto.Go.Library.{Codec}
use facto.Processor.Event.{FactoEvent}
use facto.Processor.Storage.Batch.{Database, Turn, done, events, by_facto_id, by_session, stored}
use facto.Processor.Consumer.{Msg, Environment, Input, message, tick}

abbrev checksum : Bytes → ℕ
checksum [] = 7
checksum (b ∷ bs) = b + 3 * checksum bs

-- A checksum, filled up to 32 bytes.
abbrev pub toy : Digest
toy = record {
  sum = λ b. checksum b % 256 ∷ replicate 31 0;
  sum_bytes = λ b. (omega arith, zeros 31);
  sum_length = λ b. refl;
}
  where
    zeros : (n : ℕ) → AreBytes (replicate n 0)
    zeros zero = tt
    zeros (suc n) = (omega arith, zeros n)

abbrev pub toy_codec : Codec
toy_codec = record {
  marshal_map = λ m. codes "{}";
  marshal_slice = λ l. codes "[]";
  unmarshal_map = λ b. none;
  unmarshal_slice = λ b. some [];
  narrow = λ n. n;
  widen = λ n. n;
}

-- An event whose identifier and hash are `name`.
abbrev pub event_named : Bytes → FactoEvent
event_named name = record {
  facto_id = name;
  agent_id = codes "agent";
  session_id = codes "s";
  parent_facto_id = none;
  action_type = codes "call";
  status = codes "success";
  input_data = none;
  output_data = none;
  execution_meta = record {
    model_id = none;
    model_hash = none;
    temperature = none;
    seed = some (pos 42);
    max_tokens = none;
    tool_calls = some [];
    sdk_version = codes "1";
    sdk_language = codes "go";
    tags = none;
  };
  proof = record { signature = []; public_key = []; prev_hash = []; event_hash = name };
  started_at = pos 1;
  completed_at = pos 2;
}

-- A message without data does not decode.
abbrev pub toy_unmarshal : Bytes → Option FactoEvent
toy_unmarshal [] = none
toy_unmarshal (b ∷ bs) = some (event_named (b ∷ bs))

abbrev pub empty_database : Database
empty_database = record { events = []; by_facto_id = []; by_session = []; merkle_roots = [] }

abbrev pub schedule : List Turn
schedule = by_session done ∷ events done ∷ by_facto_id done ∷ []

abbrev pub environment : Environment
environment = record {
  schedule = schedule;
  now = λ n. 100 + n;
  bucket_time = 200;
  created_at = 300;
  root_outcome = stored;
}

abbrev pub good : Msg
good = record { sequence = 1; payload = codes "ab" }

abbrev pub bad : Msg
bad = record { sequence = 2; payload = [] }

abbrev pub inputs : List Input
inputs = message environment good ∷ tick environment ∷ message environment bad ∷ []
