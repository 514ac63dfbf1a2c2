-- ===== src/Vault/Seal.antt =====
-- The operations of src/vault.rs that draw a nonce.
use evnx_crypto.Base.{[], ◌++◌}
use evnx_crypto.Base.Bytes.{Bytes}
use evnx_crypto.Base.Outcome.{ok, map, or_err}
use evnx_crypto.Base.Slices.{from_slice}
use evnx_crypto.Crates.{Crates, Rng}
use evnx_crypto.Crates.Random.{Random, lift, draw, ◌>>=◌}
use evnx_crypto.Errors.{CryptoError, encryption, key_wrap}
use evnx_crypto.Kdf.{hkdf_subkey}
use evnx_crypto.Kdf.MasterKey
use evnx_crypto.Kdf.MasterKey.{MasterKey}
use evnx_crypto.Vault.Open.{
  EncryptedBlob, decrypt_vault, nonce_len, xchacha_nonce_len, hkdf_info_vault_key_wrap_mk,
}
use evnx_crypto.Vault.VaultKey
use evnx_crypto.Vault.VaultKey.{VaultKey}
use evnx_crypto.Zeroize.SecretArray
use evnx_crypto.Zeroize.SecretBytes

module _ (c : Crates) where
  unfoldable pub encrypt_vault : Bytes → VaultKey → Bytes → Random (Rng c) CryptoError EncryptedBlob
  encrypt_vault plaintext vault_key aad = do
    key ← lift (from_slice 32 (VaultKey.expose vault_key))
    let cipher = c.aes.new key
    nonce_bytes ← draw (c.rand.fill_bytes nonce_len)
    nonce ← lift (from_slice nonce_len nonce_bytes)
    ciphertext ← lift (or_err (c.aes.encrypt cipher nonce aad plaintext) encryption)
    lift (ok (record { nonce = nonce_bytes; ciphertext = ciphertext }))

  unfoldable pub reencrypt_vault :
      EncryptedBlob → VaultKey → VaultKey → Bytes → Random (Rng c) CryptoError EncryptedBlob
  unfolding SecretBytes.new SecretBytes.as_ref
  reencrypt_vault blob old_key new_key aad = do
    plaintext ← lift (map SecretBytes.new (decrypt_vault c blob old_key aad))
    encrypt_vault (SecretBytes.as_ref plaintext) new_key aad

  -- The nonce, followed by the ciphertext.
  unfoldable pub wrap_vault_key_with_master_key :
      VaultKey → MasterKey → Random (Rng c) CryptoError Bytes
  wrap_vault_key_with_master_key vault_key master_key = do
    subkey ← lift (hkdf_subkey c (MasterKey.expose master_key) hkdf_info_vault_key_wrap_mk)
    cipher ← lift (or_err (c.xchacha.new_from_slice (SecretArray.expose subkey)) key_wrap)
    nonce_bytes ← draw (c.rand.fill_bytes xchacha_nonce_len)
    nonce ← lift (from_slice xchacha_nonce_len nonce_bytes)
    ciphertext ←
        lift (or_err (c.xchacha.encrypt cipher nonce [] (VaultKey.expose vault_key)) key_wrap)
    lift (ok (nonce_bytes ++ ciphertext))
