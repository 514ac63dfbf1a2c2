-- ===== src/Vault.antt =====
-- src/vault.rs: vaults sealed with AES-256-GCM, and vault keys wrapped under the master key.
-- `Identity` is the associated data, `Open` the operations that draw no randomness, `Seal` those
-- that do. `Store` is a vault over time, as a specification; the other modules are proofs.
pub mod VaultKey
pub mod Identity
pub mod Open
pub mod Seal
pub mod Aad
pub mod Blob
pub mod Rekey
pub mod Wrap
pub mod Store
