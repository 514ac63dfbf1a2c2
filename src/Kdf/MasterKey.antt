-- ===== src/Kdf/MasterKey.antt =====
-- `MasterKey` of src/kdf.rs.
use evnx_crypto.Base.{String, ◌≡◌, length}
use evnx_crypto.Crates.{Crates}
use evnx_crypto.Base.Bytes.{Bytes}

pub record MasterKey : Type 0 where
  pub bytes : Bytes

-- What the type `[u8; 32]` of the key says.
abbrev pub IsMasterKey : MasterKey → Type 0
IsMasterKey k = length k.bytes ≡ 32

-- `MasterKey::expose`
unfoldable pub expose : MasterKey → Bytes
expose k = k.bytes

-- `Debug` of the key.
unfoldable pub debug : MasterKey → String
debug k = "MasterKey(<redacted>)"

-- `MasterKey::from_bytes_for_test`, which the feature `test-utils` adds.
unfoldable pub from_bytes_for_test : Bytes → MasterKey
from_bytes_for_test bytes = record { bytes = bytes }

-- The drop that `ZeroizeOnDrop` derives: what the key's memory holds when it is released.
unfoldable pub drop : Crates → MasterKey → Bytes
drop c k = c.zeroize.zeroize k.bytes
