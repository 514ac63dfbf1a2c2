-- ===== src/Vault/Identity.antt =====
-- The associated data that binds a blob to its vault and version, and the hash of a push, in
-- src/vault.rs.
use evnx_crypto.Base.{ℕ, ◌%◌, ◌^◌, ◌++◌, length}
use evnx_crypto.Base.Bytes.{Bytes, Text, ascii}
use evnx_crypto.Base.Words.{u16_be, u32_be}
use evnx_crypto.Crates.{Crates}

-- The version is a `u32`. The cast of the length to `u16` wraps around.
unfoldable pub vault_aad : Text → ℕ → Bytes
vault_aad vault_id version =
    ascii "evnx" ++ (u16_be (length vault_id % 2 ^ 16) ++ (vault_id ++ u32_be version))

unfoldable pub blob_hash : Crates → Bytes → Text
blob_hash c ciphertext = c.blake3.to_hex (c.blake3.hash ciphertext)
