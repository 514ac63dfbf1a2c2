-- ===== src/Vault/Open.antt =====
-- The blobs of src/vault.rs, and the operations on them that draw no randomness.
use evnx_crypto.Base.{ℕ, ◌+◌, ◌≡◌, [], length, ltb, ◌==◌, not}
use evnx_crypto.Base.Bytes.{Bytes, ascii}
use evnx_crypto.Base.Outcome.{ok, ◌>>=◌, ◌>>◌, fail_if, or_err}
use evnx_crypto.Base.Slices.{copy_from_slice, from_slice, slice_to, slice_from}
use evnx_crypto.Crates.{Crates}
use evnx_crypto.Errors.{Result, invalid_input, decryption, key_unwrap}
use evnx_crypto.Kdf.{hkdf_subkey}
use evnx_crypto.Kdf.MasterKey
use evnx_crypto.Kdf.MasterKey.{MasterKey}
use evnx_crypto.Vault.VaultKey
use evnx_crypto.Vault.VaultKey.{VaultKey, vault_key_len}
use evnx_crypto.Zeroize.SecretArray

abbrev pub nonce_len : ℕ
nonce_len = 12

abbrev pub xchacha_nonce_len : ℕ
xchacha_nonce_len = 24

abbrev pub hkdf_info_vault_key_wrap_mk : Bytes
hkdf_info_vault_key_wrap_mk = ascii "evnx-vault-key-wrap-mk-v1"

pub record EncryptedBlob : Type 0 where
  pub nonce : Bytes
  pub ciphertext : Bytes

-- What the type of the nonce, `[u8; 12]`, says.
abbrev pub IsBlob : EncryptedBlob → Type 0
IsBlob b = length b.nonce ≡ nonce_len

module _ (c : Crates) where
  unfoldable pub decrypt_vault : EncryptedBlob → VaultKey → Bytes → Result Bytes
  decrypt_vault blob vault_key aad = do
    key ← from_slice 32 (VaultKey.expose vault_key)
    let cipher = c.aes.new key
    nonce ← from_slice nonce_len blob.nonce
    or_err (c.aes.decrypt cipher nonce aad blob.ciphertext) decryption

  unfoldable pub unwrap_vault_key_with_master_key : Bytes → MasterKey → Result VaultKey
  unwrap_vault_key_with_master_key wrapped master_key = do
    fail_if (ltb (length wrapped) (xchacha_nonce_len + vault_key_len))
        (invalid_input "wrapped key too short")
    subkey ← hkdf_subkey c (MasterKey.expose master_key) hkdf_info_vault_key_wrap_mk
    cipher ← or_err (c.xchacha.new_from_slice (SecretArray.expose subkey)) key_unwrap
    prefix ← slice_to xchacha_nonce_len wrapped
    nonce ← from_slice xchacha_nonce_len prefix
    rest ← slice_from xchacha_nonce_len wrapped
    plaintext ← or_err (c.xchacha.decrypt cipher nonce [] rest) key_unwrap
    fail_if (not (length plaintext == vault_key_len)) (invalid_input "decrypted key wrong length")
    key ← copy_from_slice vault_key_len plaintext
    ok (VaultKey.from_bytes key)
