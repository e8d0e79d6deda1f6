-- ===== src/Go/Sha.antt =====
-- The hash functions as the callers see them: crypto/sha256 and golang.org/x/crypto/sha3 map any
-- bytes to a digest of 32 bytes. Nothing else is assumed of them.
use facto.Base.{◌≡◌, ◌≢◌, length}
use facto.Go.Text.{Bytes, AreBytes}

pub record Digest : Type 0 where
  pub sum : Bytes → Bytes
  pub sum_bytes : (b : Bytes) → AreBytes (sum b)
  pub sum_length : (b : Bytes) → length (sum b) ≡ 32

-- Two different inputs with one digest.
abbrev pub Collision : Digest → Type 0
Collision d = (x : Bytes) × (y : Bytes) × (x ≢ y) × (d.sum x ≡ d.sum y)
