-- ===== src/Keypair.antt =====
-- src/keypair.rs: the user's keys, their sealing under the master key, and the hybrid wrap. The
-- modules below `Laws` are the proofs, the others the code.
pub mod Types
pub mod MlKem768PublicKey
pub mod Derive
pub mod Cipher
pub mod FreshCipher
pub mod PrivateKey
pub mod Generate
pub mod Hybrid
pub mod Wrap
pub mod Unwrap
pub mod Ed25519PublicKey
pub mod X25519PublicKeyBytes
pub mod UserKeypair
pub mod UserPublicKeys
pub mod EncryptedPrivateKey
pub mod WrappedVaultKey
pub mod TestSupport
pub mod Laws
