-- ===== src/Keypair/Unwrap.antt =====
-- `mlkem_decapsulate` and `unwrap_vault_key` of src/keypair.rs.
use evnx_crypto.Base.{◌<>◌, [], length, not, ◌==◌, ltb}
use evnx_crypto.Base.Bytes.{Bytes}
use evnx_crypto.Base.Decimal.{decimal}
use evnx_crypto.Base.Outcome.{ok, ◌>>=◌, ◌>>◌, fail_if, or_err}
use evnx_crypto.Base.Slices.{copy_from_slice, slice_to, slice_from}
use evnx_crypto.Crates.{Crates}
use evnx_crypto.Errors.{Result, invalid_input, invalid_public_key, key_unwrap}
use evnx_crypto.Keypair.Cipher.{new_xchacha_cipher_from_nonce}
use evnx_crypto.Keypair.Hybrid.{hybrid_wrap_key}
use evnx_crypto.Keypair.Types.{
  UserKeypair, WrappedVaultKey, mlkem768_ciphertext_len, mlkem_shared_secret_len, xchacha_nonce_len,
}
use evnx_crypto.Vault.VaultKey
use evnx_crypto.Vault.VaultKey.{VaultKey}
use evnx_crypto.Zeroize.SecretArray

module _ (c : Crates) where
  unfoldable pub mlkem_decapsulate : UserKeypair c → Bytes → Result Bytes
  mlkem_decapsulate keypair ciphertext = do
    shared ← or_err (c.mlkem.decapsulate_slice keypair.mlkem_decap ciphertext) (
        invalid_input (
          "ML-KEM-768 ciphertext must be "
          <> decimal mlkem768_ciphertext_len
          <> " bytes, got "
          <> decimal (length ciphertext)))
    secret ← copy_from_slice mlkem_shared_secret_len shared
    ok secret

  unfoldable pub unwrap_vault_key : WrappedVaultKey → UserKeypair c → Result VaultKey
  unwrap_vault_key wrapped keypair = do
    let my_static = c.x25519.static_from keypair.x25519_private
    let eph_pub = c.x25519.public_from wrapped.eph_pub_key
    let shared_secret = c.x25519.static_dh my_static eph_pub
    fail_if (not (c.x25519.was_contributory shared_secret)) invalid_public_key
    ss_mlkem ← mlkem_decapsulate keypair wrapped.mlkem_ciphertext
    wrap_key ←
        (hybrid_wrap_key c ss_mlkem (c.x25519.as_bytes shared_secret) wrapped.mlkem_ciphertext
          wrapped.eph_pub_key keypair.x25519_public.bytes).0
    fail_if (ltb (length wrapped.encrypted_vault_key) xchacha_nonce_len)
        (invalid_input "wrapped vault key too short")
    prefix ← slice_to xchacha_nonce_len wrapped.encrypted_vault_key
    fail_if (not (length prefix == xchacha_nonce_len)) (invalid_input "nonce extraction failed")
    ciphertext ← slice_from xchacha_nonce_len wrapped.encrypted_vault_key
    (cipher, _, nonce) ← new_xchacha_cipher_from_nonce c (SecretArray.expose wrap_key) prefix []
    vault_key_bytes ← or_err (c.xchacha.decrypt cipher nonce [] ciphertext) key_unwrap
    fail_if (not (length vault_key_bytes == 32)) (invalid_input "decrypted vault key wrong length")
    key ← copy_from_slice 32 vault_key_bytes
    ok (VaultKey.from_bytes key)
