-- ===== src/Tests/Chains.antt =====
-- A run of VerifyChain of server/api/handlers.go on a chain of two events that is valid.
use facto.Base.{[], ◌++◌, Option, some, none, true, replicate}
use facto.Go.Text.{Bytes, codes}
use facto.Go.Json.{Value, str, obj, null, bool, num, int, arr}
use facto.Go.Hex
use facto.Go.Base64
use facto.Processor.Storage.{session_row, process}
use facto.Api.Event.{EventResponse}
use facto.Api.Storage.{event_of_session_row}
use facto.Api.Verify.{Verifier}
use facto.Api.Verify.Sorted.{lookup}
use facto.Api.Chain.{ChainVerifyResponse, zero_hash}
use facto.Tests.Data.{toy, toy_codec, event_named}

abbrev text_of : Option Value → Bytes
text_of none = []
text_of (some (str s)) = s
text_of (some null) = []
text_of (some (bool b)) = []
text_of (some (num n)) = []
text_of (some (int n)) = []
text_of (some (arr vs)) = []
text_of (some (obj m)) = []

-- A text that shows the previous hash and nothing else.
abbrev previous : Value → Bytes
previous (obj m) = text_of (lookup (codes "prev_hash") m)
previous null = []
previous (bool b) = []
previous (num n) = []
previous (int n) = []
previous (str s) = []
previous (arr vs) = []

abbrev verifier : Verifier
verifier = record { sha3 = toy; marshal = previous; ed25519_verify = λ k m s. true }

-- An event with keys of the right sizes, after the hash `prev`.
abbrev event_after : Bytes → EventResponse
event_after prev =
    record (event_of_session_row toy_codec
      (session_row 100 (process toy_codec (event_named (codes "ab"))))) {
        proof = record {
          signature = Base64.encode (replicate 64 0);
          public_key = Base64.encode (replicate 32 0);
          prev_hash = prev;
          event_hash = Hex.encode (toy.sum prev);
        };
      }

abbrev first : EventResponse
first = event_after zero_hash

abbrev second : EventResponse
second = event_after (Hex.encode (toy.sum zero_hash))

abbrev answer : ChainVerifyResponse
answer = record {
  valid = true;
  event_count = 2;
  checks = record {
    all_hashes_valid = true;
    all_signatures_valid = true;
    chain_integrity_valid = true;
  };
  first_event = codes "ab";
  last_event = codes "ab";
  session_hash = Hex.encode (toy.sum (first.proof.event_hash ++ second.proof.event_hash));
  errors = [];
}
