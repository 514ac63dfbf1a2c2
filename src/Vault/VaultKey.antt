-- ===== src/Vault/VaultKey.antt =====
-- `VaultKey` of src/vault.rs.
use evnx_crypto.Base.{ℕ, String, ◌≡◌, length}
use evnx_crypto.Base.Bytes.{Bytes}
use evnx_crypto.Crates.{Crates, Rng}

abbrev pub vault_key_len : ℕ
vault_key_len = 32

pub record VaultKey : Type 0 where
  pub bytes : Bytes

-- What the type `[u8; 32]` of the key says.
abbrev pub IsVaultKey : VaultKey → Type 0
IsVaultKey k = length k.bytes ≡ 32

unfoldable pub generate : (c : Crates) → Rng c → VaultKey × Rng c
generate c g = let (key, g') = c.rand.fill_bytes vault_key_len g in (record { bytes = key }, g')

unfoldable pub expose : VaultKey → Bytes
expose k = k.bytes

unfoldable pub from_bytes : Bytes → VaultKey
from_bytes b = record { bytes = b }

-- `Debug` of the key.
unfoldable pub debug : VaultKey → String
debug k = "VaultKey(<redacted>)"

-- `VaultKey::from_bytes_for_test`, which the feature `test-utils` adds.
unfoldable pub from_bytes_for_test : Bytes → VaultKey
from_bytes_for_test bytes = record { bytes = bytes }

-- The drop that `ZeroizeOnDrop` derives: what the key's memory holds when it is released.
unfoldable pub drop : Crates → VaultKey → Bytes
drop c k = c.zeroize.zeroize k.bytes
