-- ===== src/Keypair/Wrap.antt =====
-- `mlkem_encapsulate` and `wrap_vault_key_for_user` of src/keypair.rs.
use evnx_crypto.Base.{[], ◌++◌, not}
use evnx_crypto.Base.Bytes.{Bytes}
use evnx_crypto.Base.Outcome.{ok, or_err, fail_if}
use evnx_crypto.Base.Slices.{copy_from_slice}
use evnx_crypto.Crates.{Crates, Rng}
use evnx_crypto.Crates.Random.{Random, lift, draw, ◌>>=◌, ◌>>◌}
use evnx_crypto.Errors.{CryptoError, invalid_public_key, key_wrap}
use evnx_crypto.Keypair.FreshCipher.{new_xchacha_cipher}
use evnx_crypto.Keypair.Hybrid.{hybrid_wrap_key}
use evnx_crypto.Keypair.MlKem768PublicKey as Public
use evnx_crypto.Keypair.Types.{
  MlKem768PublicKey, UserPublicKeys, WrappedVaultKey, mlkem_shared_secret_len,
}
use evnx_crypto.Vault.VaultKey
use evnx_crypto.Vault.VaultKey.{VaultKey}
use evnx_crypto.Zeroize.SecretArray

module _ (c : Crates) where
  -- The ciphertext and the shared secret.
  unfoldable pub mlkem_encapsulate : MlKem768PublicKey → Random (Rng c) CryptoError (Bytes × Bytes)
  mlkem_encapsulate recipient_pub = do
    encoded ← lift (or_err (c.mlkem.try_from (Public.as_bytes recipient_pub)) invalid_public_key)
    ek ← lift (or_err (c.mlkem.new encoded) invalid_public_key)
    m ← draw (c.rand.fill_bytes 32)
    let (ciphertext, shared) = c.mlkem.encapsulate_deterministic ek m
    secret ← lift (copy_from_slice mlkem_shared_secret_len shared)
    lift (ok (ciphertext, secret))

  unfoldable pub wrap_vault_key_for_user :
      VaultKey → UserPublicKeys → Random (Rng c) CryptoError WrappedVaultKey
  wrap_vault_key_for_user vault_key recipient = do
    eph_secret ← draw c.x25519.random_from_rng
    let eph_pub = c.x25519.ephemeral_public eph_secret
    let recipient_pubkey = c.x25519.public_from recipient.x25519.bytes
    let shared_secret = c.x25519.ephemeral_dh eph_secret recipient_pubkey
    lift (fail_if (not (c.x25519.was_contributory shared_secret)) invalid_public_key)
    (mlkem_ciphertext, ss_mlkem) ← mlkem_encapsulate recipient.mlkem
    wrap_key ←
        lift
          (hybrid_wrap_key c ss_mlkem (c.x25519.as_bytes shared_secret) mlkem_ciphertext
            (c.x25519.public_to_bytes eph_pub) recipient.x25519.bytes).0
    (cipher, nonce_bytes, nonce) ← new_xchacha_cipher c (SecretArray.expose wrap_key) []
    ciphertext ←
        lift (or_err (c.xchacha.encrypt cipher nonce [] (VaultKey.expose vault_key)) key_wrap)
    lift (
        ok (record {
          eph_pub_key = c.x25519.public_to_bytes eph_pub;
          mlkem_ciphertext = mlkem_ciphertext;
          encrypted_vault_key = nonce_bytes ++ ciphertext;
        }))
