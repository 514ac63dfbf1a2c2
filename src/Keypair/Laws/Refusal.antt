-- ===== src/Keypair/Laws/Refusal.antt =====
-- Inputs that wrapping and unwrapping of src/keypair.rs refuse.
use evnx_crypto.Base.Bytes.{Bytes}
use evnx_crypto.Base.Decimal.{decimal}
use evnx_crypto.Base.Outcome.{ok, err}
use evnx_crypto.Base.{◌<◌, ◌≡◌, ◌≢◌, true, length, arith, ◌<>◌}
use evnx_crypto.Crates.Kem.{IsMlKem}
use evnx_crypto.Crates.{Crates}
use evnx_crypto.Errors.{invalid_input}
use evnx_crypto.Kdf.{hkdf_subkey}
use evnx_crypto.Keypair.Hybrid.{hybrid_wrap_key}
use evnx_crypto.Keypair.Laws.Kem.{mlkem_decapsulate_refused}
use evnx_crypto.Keypair.Laws.Share.{IsHybridCipher, static_secret}
use evnx_crypto.Keypair.Types.{UserKeypair, WrappedVaultKey}
use evnx_crypto.Keypair.Unwrap.{mlkem_decapsulate, unwrap_vault_key}

module _ (c : Crates) where
  -- With a contributory key, a wrap whose ML-KEM ciphertext does not have 1088 bytes is refused:
  -- there is no way to unwrap with the X25519 half alone.
  pub unwrap_without_kem :
      (w : WrappedVaultKey) (kp : UserKeypair c)
      → IsMlKem c.mlkem
      → c.x25519.was_contributory (static_secret c kp w.eph_pub_key) ≡ true
      → length w.mlkem_ciphertext ≢ 1088
      → unwrap_vault_key c w kp
        ≡ err (
            invalid_input (
              "ML-KEM-768 ciphertext must be "
              <> decimal 1088
              <> " bytes, got "
              <> decimal (length w.mlkem_ciphertext)))
  unfolding unwrap_vault_key
  unwrap_without_kem w kp m con n =
      ground (arith, mlkem_decapsulate_refused c kp w.mlkem_ciphertext m n)

  pub unwrap_too_short :
      (w : WrappedVaultKey) (kp : UserKeypair c) {ss : Bytes} {k : c.xchacha.Cipher}
      → c.x25519.was_contributory (static_secret c kp w.eph_pub_key) ≡ true
      → mlkem_decapsulate c kp w.mlkem_ciphertext ≡ ok ss
      → IsHybridCipher c ss
          (c.x25519.as_bytes (static_secret c kp w.eph_pub_key))
          w.mlkem_ciphertext
          w.eph_pub_key
          kp.x25519_public.bytes
          k
      → length w.encrypted_vault_key < 24
      → unwrap_vault_key c w kp ≡ err (invalid_input "wrapped vault key too short")
  unfolding unwrap_vault_key hybrid_wrap_key hkdf_subkey
  unwrap_too_short w kp con dec derived short = ground (arith, derived)
