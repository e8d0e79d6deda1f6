-- ===== src/Api/Verify.antt =====
-- server/api/handlers.go: the canonical form of an event, and the checks of its hash and signature.
pub mod Sorted
pub mod Binding
use facto.Base.{
  ℕ, List, [], ◌∷◌, Option, none, some, Bool, true, false, ◌&&◌, ◌==◌, if◌then◌else◌, length,
  eq_bytes, map,
}
use facto.Base.Int.{ℤ}
use facto.Go.Text.{Bytes, codes}
use facto.Go.Json.{Value, Items, Fields, null, bool, num, int, str, arr, obj, nil, cons, end, field}
use facto.Go.Hex
use facto.Go.Base64
use facto.Go.Sha.{Digest}
use facto.Go.Strings.{lt_bytes}
use facto.Api.Event.{EventResponse, ExecutionMetaResponse, ProofResponse}

-- What the checks call: SHA3-256, json.Marshal (no bytes for a value that it refuses), and ed25519.Verify
-- of a public key, a message and a signature.
pub record Verifier : Type 0 where
  pub sha3 : Digest
  pub marshal : Value → Bytes
  pub ed25519_verify : Bytes → Bytes → Bytes → Bool

-- `keys` is sorted, so an entry goes before the first one whose key is not less.
unfoldable pub insert_sorted : Bytes → Value → Fields → Fields
insert_sorted k v end = field k v end
insert_sorted k v (field l w rest) =
    let later = insert_sorted k v rest in
    if lt_bytes l k then field l w later else field k v (field l w rest)

-- sortedMap: the entries by increasing key, those of a nested map too.
unfoldable pub sorted_map : Fields → Fields
unfolding insert_sorted
sorted_map end = end
sorted_map (field k (obj nested) rest) = insert_sorted k (obj (sorted_map nested)) (sorted_map rest)
sorted_map (field k null rest) = insert_sorted k null (sorted_map rest)
sorted_map (field k (bool b) rest) = insert_sorted k (bool b) (sorted_map rest)
sorted_map (field k (num n) rest) = insert_sorted k (num n) (sorted_map rest)
sorted_map (field k (int n) rest) = insert_sorted k (int n) (sorted_map rest)
sorted_map (field k (str s) rest) = insert_sorted k (str s) (sorted_map rest)
sorted_map (field k (arr vs) rest) = insert_sorted k (arr vs) (sorted_map rest)

abbrev pub items : List Value → Items
items [] = nil
items (v ∷ vs) = cons v (items vs)

-- What a pointer or a slice in an `interface{}` encodes as, and a nil map once sortedMap has copied it.
abbrev pub pointer : {A : Type 0} → (A → Value) → Option A → Value
pointer f none = null
pointer f (some x) = f x

abbrev pub fields_of : Option Fields → Fields
fields_of none = end
fields_of (some m) = m

-- `if p != nil { m[k] = *p }`
abbrev pub entry : {A : Type 0} → Bytes → (A → Value) → Option A → Fields → Fields
entry k f none rest = rest
entry k f (some x) rest = field k (f x) rest

-- The map `execMeta`.
unfoldable pub exec_meta : ExecutionMetaResponse → Fields
exec_meta m = entry (codes "model_id") str m.model_id (
    field (codes "seed") (pointer int m.seed) (
      field (codes "sdk_version") (str m.sdk_version) (
        entry (codes "temperature") num m.temperature
          (field (codes "tool_calls") (pointer (λ l. arr (items l)) m.tool_calls) end))))

-- The map `canonical`.
unfoldable pub canonical : EventResponse → Fields
unfolding exec_meta
canonical e = field (codes "action_type") (str e.action_type) (
    field (codes "agent_id") (str e.agent_id) (
      field (codes "completed_at") (int e.completed_at) (
        field (codes "execution_meta") (obj (exec_meta e.execution_meta)) (
          field (codes "input_data") (obj (fields_of e.input_data)) (
            field (codes "output_data") (obj (fields_of e.output_data)) (
              field (codes "parent_facto_id") (pointer str e.parent_facto_id) (
                field (codes "prev_hash") (str e.proof.prev_hash) (
                  field (codes "session_id") (str e.session_id) (
                    field (codes "started_at") (int e.started_at) (
                      field (codes "status") (str e.status)
                        (field (codes "facto_id") (str e.facto_id) end)))))))))))

module _ (v : Verifier) where
  -- buildCanonicalForm
  unfoldable pub build_canonical_form : EventResponse → Bytes
  unfolding canonical sorted_map
  build_canonical_form e = v.marshal (obj (sorted_map (canonical e)))

  unfoldable pub verify_hash : EventResponse → Bool
  unfolding build_canonical_form
  verify_hash e = eq_bytes (Hex.encode (v.sha3.sum (build_canonical_form e))) e.proof.event_hash

  -- The part of verifySignature for a public key of the right size.
  abbrev pub check_signature : EventResponse → Bytes → Option Bytes → Bool
  check_signature e public_key none = false
  check_signature e public_key (some signature) =
      if length signature == 64
      then v.ed25519_verify public_key (build_canonical_form e) signature
      else false

  abbrev pub check_key : EventResponse → Option Bytes → Bool
  check_key e none = false
  check_key e (some public_key) =
      if length public_key == 32
      then check_signature e public_key (Base64.decode e.proof.signature)
      else false

  unfoldable pub verify_signature : EventResponse → Bool
  unfolding build_canonical_form
  verify_signature e = check_key e (Base64.decode e.proof.public_key)
