-- ===== src/Pipeline/Verdicts.antt =====
-- The checks of server/api/handlers.go on an event that server/processor/storage.go has stored, against the
-- same checks on the event as it was sent.
use facto.Base.{
  ℕ, ◌+◌, ◌-◌, ◌*◌, ◌%◌, ◌≡◌, ◌≢◌, refl, ◌∙◌, ap, [], ◌∷◌, Option, some, none, arith, ap₂, false,
  length, ◌==◌, if◌then◌else◌, eq_bytes,
}
use facto.Base.Int.{ℤ, pos}
use facto.Go.Text.{Bytes}
use facto.Go.Json.{Fields, obj, end as no_fields}
use facto.Go.Hex
use facto.Go.Base64
use facto.Go.Time.{Time, from_unix_nano, unix_nano, epoch}
use facto.Go.Library.{Codec}
use facto.Processor.Event.{FactoEvent}
use facto.Processor.Storage.{session_row, process}
use facto.Api.Event.{EventResponse}
use facto.Api.Storage.{or_empty, event_of_session_row}
use facto.Api.Storage.Stored.{
  RoundTrips, unless_empty, read_session_row, read_time, stored_temperature, as_stored_by_session,
  stored_rows-events,
}
use facto.Api.Verify.{
  Verifier, fields_of, exec_meta, canonical, build_canonical_form, verify_hash, verify_signature,
  check_signature, check_key, sorted_map,
}

-- The event as POST /v1/verify takes it: the JSON that was sent, field by field.
abbrev pub as_sent : FactoEvent → EventResponse
as_sent e = record {
  facto_id = e.facto_id;
  agent_id = e.agent_id;
  session_id = e.session_id;
  parent_facto_id = e.parent_facto_id;
  action_type = e.action_type;
  status = e.status;
  input_data = e.input_data;
  output_data = e.output_data;
  execution_meta = record {
    model_id = e.execution_meta.model_id;
    model_hash = e.execution_meta.model_hash;
    temperature = e.execution_meta.temperature;
    seed = e.execution_meta.seed;
    max_tokens = e.execution_meta.max_tokens;
    tool_calls = e.execution_meta.tool_calls;
    sdk_version = e.execution_meta.sdk_version;
    sdk_language = e.execution_meta.sdk_language;
    tags = e.execution_meta.tags;
  };
  proof = record {
    signature = e.proof.signature;
    public_key = e.proof.public_key;
    prev_hash = e.proof.prev_hash;
    event_hash = e.proof.event_hash;
  };
  started_at = e.started_at;
  completed_at = e.completed_at;
}

-- A time from the epoch on, in whole milliseconds.
pub record IsMillis (t : ℤ) : Type 0 where
  pub millis : ℕ
  pub is : t ≡ pos (millis * 1000000)

-- What the table of sessions keeps of the canonical form: no optional string is empty, the temperature is
-- that of a float32 and not zero, there is no seed and no tool call, and the times are in milliseconds.
pub record IsPlain (column : Time → Time) (codec : Codec) (e : FactoEvent) : Type 0 where
  pub parent : e.parent_facto_id ≢ some []
  pub model : e.execution_meta.model_id ≢ some []
  pub temperature :
      stored_temperature column codec e e.execution_meta.temperature ≡ e.execution_meta.temperature
  pub seed : e.execution_meta.seed ≡ none
  pub tools : e.execution_meta.tool_calls ≡ some []
  pub started : IsMillis e.started_at
  pub completed : IsMillis e.completed_at

unless_empty_keeps : (o : Option Bytes) → o ≢ some [] → unless_empty o ≡ o
unless_empty_keeps none h = refl
unless_empty_keeps (some []) h = absurd (h refl)
unless_empty_keeps (some (b ∷ bs)) h = refl

fields_of-or_empty : (o : Option Fields) → fields_of (or_empty no_fields o) ≡ fields_of o
fields_of-or_empty none = refl
fields_of-or_empty (some m) = refl

module _ (v : Verifier) (a b : EventResponse)
    (form : build_canonical_form v a ≡ build_canonical_form v b) where
  check_signature_same :
      (public_key : Bytes) (signature : Option Bytes)
      → check_signature v a public_key signature ≡ check_signature v b public_key signature
  check_signature_same public_key none = refl
  check_signature_same public_key (some signature) =
      ap (λ f. if length signature == 64 then v.ed25519_verify public_key f signature else false)
        form

  check_key_same :
      a.proof.signature ≡ b.proof.signature
      → (public_key : Option Bytes) → check_key v a public_key ≡ check_key v b public_key
  check_key_same s none = refl
  check_key_same s (some public_key) =
      ap (λ r. if length public_key == 32 then r else false)
        (check_signature_same public_key (Base64.decode a.proof.signature)
          ∙ ap (λ x. check_signature v b public_key (Base64.decode x)) s)

  -- Both checks see an event by its canonical form and its proof.
  checks_same :
      a.proof ≡ b.proof
      → (verify_hash v a ≡ verify_hash v b) × (verify_signature v a ≡ verify_signature v b)
  unfolding verify_hash verify_signature
  checks_same p = (
    ap₂ (λ f h. eq_bytes (Hex.encode (v.sha3.sum f)) h) form (ap (λ q. q.event_hash) p),
    check_key_same (ap (λ q. q.signature) p) (Base64.decode a.proof.public_key)
        ∙ ap (λ q. check_key v b (Base64.decode q.public_key)) p,
  )

module _ (column : Time → Time) (millis : (t : Time) → column t ≡ t - t % 1000000) (codec : Codec)
    (e : FactoEvent) where
  read_time-IsMillis : (t : ℤ) → IsMillis t → read_time column codec e t ≡ t
  unfolding from_unix_nano unix_nano
  read_time-IsMillis t h = rw (h.is, millis (epoch + h.millis * 1000000)) (ground arith)

  canonical-stored :
      IsPlain column codec e
      → canonical (as_stored_by_session column codec e) ≡ canonical (as_sent e)
  unfolding canonical exec_meta
  canonical-stored h = cc (
    unless_empty_keeps e.parent_facto_id h.parent,
    unless_empty_keeps e.execution_meta.model_id h.model,
    h.temperature,
    h.seed,
    h.tools,
    read_time-IsMillis e.started_at h.started,
    read_time-IsMillis e.completed_at h.completed,
    fields_of-or_empty e.input_data,
    fields_of-or_empty e.output_data,
  )

  -- If the columns of times keep milliseconds, JSON gives the event's data back, and the event is plain: its
  -- row in the table of sessions is read back as an event that passes the hash check and the signature
  -- check exactly if the event passes them as it was sent.
  pub session-verdicts :
      (v : Verifier) (now : Time)
      → RoundTrips codec e
      → IsPlain column codec e
      → let r =
          event_of_session_row codec
            (read_session_row column codec e (session_row now (process codec e))) in
        (verify_hash v r ≡ verify_hash v (as_sent e))
        × (verify_signature v r ≡ verify_signature v (as_sent e))
  unfolding build_canonical_form
  session-verdicts v now json h =
      let stored = (stored_rows-events column codec e now json).1 in
      let form = ap (λ c. v.marshal (obj (sorted_map c))) (canonical-stored h) in
      rw stored (checks_same v (as_stored_by_session column codec e) (as_sent e) form refl)
