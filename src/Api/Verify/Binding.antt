-- ===== src/Api/Verify/Binding.antt =====
-- What the checks of server/api/handlers.go say of an event, and what they leave open.
use facto.Base.{◌≡◌, refl, List, Option}
use facto.Base.Int.{ℤ}
use facto.Go.Text.{Bytes}
use facto.Go.Hex
use facto.Api.Event.{EventResponse}
use facto.Api.Verify.{Verifier, build_canonical_form, verify_hash, verify_signature}

-- The event with other values of the fields that the canonical form leaves out.
abbrev pub with_uncovered :
    Option Bytes → Option ℤ → Bytes → Option (List (Bytes × Bytes)) → EventResponse → EventResponse
with_uncovered model_hash max_tokens sdk_language tags e = record e {
  execution_meta = record e.execution_meta {
    model_hash = model_hash;
    max_tokens = max_tokens;
    sdk_language = sdk_language;
    tags = tags;
  };
}

module _ (v : Verifier) where
  -- Neither check depends on the model's hash, the token limit, the SDK's language and the tags: an event
  -- passes with any values there if it passes with its own, and only then.
  pub checks-uncovered :
      (e : EventResponse) (model_hash : Option Bytes) (max_tokens : Option ℤ) (sdk_language : Bytes)
      (tags : Option (List (Bytes × Bytes)))
      → let f = with_uncovered model_hash max_tokens sdk_language tags e in
        (verify_hash v f ≡ verify_hash v e) × (verify_signature v f ≡ verify_signature v e)
  unfolding verify_hash verify_signature build_canonical_form facto.Api.Verify.canonical
      facto.Api.Verify.exec_meta
  checks-uncovered e model_hash max_tokens sdk_language tags = (refl, refl)
