-- ===== src/Processor/Merkle/Binding.antt =====
-- Several proofs that VerifyProof of server/processor/merkle.go accepts against one root.
use facto.Base.{◌≡◌, List, length, All}
use facto.Go.Text.{Bytes, AreBytes}
use facto.Go.Hex
use facto.Processor.Merkle.{ProofElement}

-- A digest as the program writes it: 32 bytes in lowercase hexadecimal.
pub record IsDigest (s : Bytes) : Type 0 where
  pub bytes : Bytes
  pub are_bytes : AreBytes bytes
  pub size : length bytes ≡ 32
  pub written : s ≡ Hex.encode bytes

abbrev pub AreDigests : List ProofElement → Type 0
AreDigests = All (λ e. IsDigest e.hash)
