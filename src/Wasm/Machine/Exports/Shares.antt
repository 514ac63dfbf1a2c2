-- ===== src/Wasm/Machine/Exports/Shares.antt =====
-- The exports of src/wasm.rs that share vault keys between users.
use evnx_crypto.Base.Bytes.{Text}
use evnx_crypto.Base.Outcome.{
  panic, map_err, Any, Safe, Safe-of, Safe-live, Safe-bind, Safe-map_err, Safe-fail_if, Safe-or_err,
}
use evnx_crypto.Base.{ℕ, String, ◌≡◌, ◌≢◌, not, ◌==◌, length, arith}
use evnx_crypto.Crates.Kdf.{IsHkdf}
use evnx_crypto.Crates.Kem.{IsMlKem}
use evnx_crypto.Crates.Random.{IsFilling}
use evnx_crypto.Crates.Sealing.{IsAead}
use evnx_crypto.Crates.{Crates, Rng}
use evnx_crypto.Encoding.{b64_decode, b64_decode_array}
use evnx_crypto.Kdf.{hkdf_subkey}
use evnx_crypto.Keypair.FreshCipher.{new_xchacha_cipher}
use evnx_crypto.Keypair.Hybrid.{hybrid_wrap_key}
use evnx_crypto.Keypair.Laws.Acceptance.{unwrap-IsWrapFor, unwrap_no_panic}
use evnx_crypto.Keypair.MlKem768PublicKey as MlKem
use evnx_crypto.Keypair.Types.{UserKeypair, UserPublicKeys, WrappedVaultKey, MlKem768PublicKey}
use evnx_crypto.Keypair.Unwrap
use evnx_crypto.Keypair.UserPublicKeys as Keys
use evnx_crypto.Keypair.Wrap
use evnx_crypto.Keypair.WrappedVaultKey as Wrapped
use evnx_crypto.Keypair.X25519PublicKeyBytes as X25519
use evnx_crypto.Vault.VaultKey.{VaultKey, IsVaultKey}
use evnx_crypto.Wasm.Calls.{unwrap_shared_vault_key}
use evnx_crypto.Wasm.Draws.{wrap_vault_key_for_user}
use evnx_crypto.Wasm.Handles.{js, VaultKeyHandle, KeypairHandle}

module _ (c : Crates) where
  array-Safe : (n : ℕ) (s : Text) (what : String) → Safe Any (b64_decode_array c n s what)
  unfolding b64_decode_array b64_decode
  array-Safe n s what =
      Safe-bind Any Any (b64_decode c s what) _ (Safe-or_err (c.base64.decode s) _)
        (λ bytes _. Safe-fail_if Any (not (length bytes == n)) _ _ (λ same. ground arith))

  recipient_live : (x m : Text) → Keys.from_base64 c x m ≢ panic
  unfolding Keys.from_base64 X25519.from_base64 MlKem.from_base64
  recipient_live x m =
      ground (arith, array-Safe 32 x "x25519_public_key", array-Safe 1184 m "mlkem_public_key")

  encapsulate_live :
      (k : MlKem768PublicKey) (g : Rng c)
      → IsMlKem c.mlkem
      → ¬ ((Wrap.mlkem_encapsulate c k g).0 ≡ panic)
  unfolding Wrap.mlkem_encapsulate MlKem.as_bytes
  encapsulate_live k g m = grind (arith, m.length-secret)

  wrap_live :
      (vk : VaultKey) (rec : UserPublicKeys) (g : Rng c)
      → IsFilling c.rand
      → IsMlKem c.mlkem
      → ¬ ((Wrap.wrap_vault_key_for_user c vk rec g).0 ≡ panic)
  unfolding Wrap.wrap_vault_key_for_user hybrid_wrap_key hkdf_subkey new_xchacha_cipher
  wrap_live vk rec g f m = grind (arith, f.length-fill_bytes, encapsulate_live)

  received-Safe : (key eph ct : Text) → Safe Any (Wrapped.from_base64 c key eph ct)
  unfolding Wrapped.from_base64 b64_decode
  received-Safe key eph ct =
      Safe-bind Any Any (b64_decode c ct "mlkem_ciphertext") _ (Safe-or_err (c.base64.decode ct) _)
        (λ bytes _.
          Safe-fail_if Any (not (length bytes == 1088)) _ _
            (λ same. ground (arith, array-Safe 32 eph "eph_pub_key")))

  unwrap-Safe :
      (w : WrappedVaultKey) (kp : UserKeypair c)
      → IsAead c.xchacha
      → IsHkdf c.hkdf
      → IsMlKem c.mlkem
      → Safe IsVaultKey (Unwrap.unwrap_vault_key c w kp)
  unwrap-Safe w kp a h m =
      Safe-of IsVaultKey (Unwrap.unwrap_vault_key c w kp) (unwrap_no_panic c w kp a h m)
        (λ vk e. (unwrap-IsWrapFor c w kp a h m e).key_length)

  pub unwrap_shared_vault_key-Safe :
      (kp : KeypairHandle c) (key eph ct : Text)
      → IsAead c.xchacha
      → IsHkdf c.hkdf
      → IsMlKem c.mlkem
      → Safe (λ k. IsVaultKey k.inner) (unwrap_shared_vault_key c kp key eph ct)
  unfolding unwrap_shared_vault_key
  unwrap_shared_vault_key-Safe kp key eph ct a h m =
      Safe-bind Any (λ k. IsVaultKey k.inner) (map_err js (Wrapped.from_base64 c key eph ct)) _
        (Safe-map_err Any js (Wrapped.from_base64 c key eph ct) (received-Safe key eph ct))
        (λ w _.
          Safe-bind IsVaultKey (λ k. IsVaultKey k.inner)
            (map_err js (Unwrap.unwrap_vault_key c w kp.inner)) _
            (Safe-map_err IsVaultKey js (Unwrap.unwrap_vault_key c w kp.inner)
              (unwrap-Safe w kp.inner a h m))
            (λ k n. n))

  share_live :
      (vk : VaultKeyHandle) (x m : Text) (g : Rng c)
      → IsFilling c.rand
      → IsMlKem c.mlkem
      → ¬ ((wrap_vault_key_for_user c vk x m g).0 ≡ panic)
  unfolding wrap_vault_key_for_user
  share_live vk x m g f ml = grind (arith, recipient_live, wrap_live)

  pub wrap_vault_key_for_user-Safe :
      (vk : VaultKeyHandle) (x m : Text) (g : Rng c)
      → IsFilling c.rand
      → IsMlKem c.mlkem
      → Safe Any (wrap_vault_key_for_user c vk x m g).0
  wrap_vault_key_for_user-Safe vk x m g f ml =
      Safe-live (wrap_vault_key_for_user c vk x m g).0 (share_live vk x m g f ml)
