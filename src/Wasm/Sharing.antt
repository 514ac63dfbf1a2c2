-- ===== src/Wasm/Sharing.antt =====
-- The bindings of src/wasm.rs for shared vault keys and for the private key.
use evnx_crypto.Base.Bytes.{Text}
use evnx_crypto.Base.Outcome.{ok}
use evnx_crypto.Base.{◌≡◌, length, arith}
use evnx_crypto.Crates.Coding.{IsBase64}
use evnx_crypto.Crates.Curve.{IsX25519}
use evnx_crypto.Crates.Kdf.{IsHkdf}
use evnx_crypto.Crates.Kem.{IsMlKem, Decapsulates}
use evnx_crypto.Crates.Random.{IsFilling}
use evnx_crypto.Crates.Sealing.{IsAead}
use evnx_crypto.Crates.{Crates, Rng}
use evnx_crypto.Keypair.EncryptedPrivateKey as Sealed
use evnx_crypto.Keypair.Laws.Identity.{IsUserKeypair}
use evnx_crypto.Keypair.Laws.Seal.{encrypt_then_decrypt_private_key}
use evnx_crypto.Keypair.Laws.Share.{wrap_for_user_then_unwrap}
use evnx_crypto.Keypair.Laws.Wire.{
  encrypted_private_key_round_trip, wrapped_vault_key_round_trip, user_public_keys_round_trip,
}
use evnx_crypto.Keypair.UserKeypair as Own
use evnx_crypto.Keypair.WrappedVaultKey as Wrapped
use evnx_crypto.Vault.VaultKey.{IsVaultKey}
use evnx_crypto.Wasm.Calls.{unwrap_shared_vault_key, decrypt_private_key}
use evnx_crypto.Wasm.Draws.{wrap_vault_key_for_user, encrypt_private_key}
use evnx_crypto.Wasm.Handles.{
  VaultKeyHandle, MasterKeyHandle, KeypairHandle, WrappedKeyBundle, x25519_public_key,
  mlkem_public_key, encrypted_vault_key, eph_pub_key, mlkem_ciphertext,
}

module _ (c : Crates) where
  -- With crates that behave as documented, an ML-KEM that is correct for the draw that is made, a
  -- complete keypair and a vault key of 32 bytes: the browser wraps the vault key for the two
  -- published texts of the keypair's public keys, and it unwraps the three texts of the bundle,
  -- with the keypair, to the same vault key.
  pub browser_share_round_trip :
      (vk : VaultKeyHandle) (kp : KeypairHandle c) (g : Rng c)
      → IsBase64 c.base64
      → IsAead c.xchacha
      → IsHkdf c.hkdf
      → IsFilling c.rand
      → IsX25519 c.x25519
      → IsMlKem c.mlkem
      → IsUserKeypair c kp.inner
      → IsVaultKey vk.inner
      → Decapsulates c.mlkem kp.inner.mlkem_decap
          (c.rand.fill_bytes 32 (c.x25519.random_from_rng g).1).0
      → (bundle : WrappedKeyBundle) × (g' : Rng c) × (wrap_vault_key_for_user c vk
            (x25519_public_key c kp)
            (mlkem_public_key c kp)
            g
          ≡ (ok bundle, g'))
        × (unwrap_shared_vault_key c kp
              (encrypted_vault_key bundle)
              (eph_pub_key bundle)
              (mlkem_ciphertext bundle)
            ≡ ok vk)
  unfolding wrap_vault_key_for_user unwrap_shared_vault_key encrypted_vault_key eph_pub_key
      mlkem_ciphertext x25519_public_key mlkem_public_key Own.x25519_public_base64
      Own.mlkem_public_base64 Own.public_keys
  browser_share_round_trip vk kp g b a h f x m v hk correct =
      let keys = Own.public_keys c kp.inner in
      let (w, g', wrapped, ne, nc, _, unwrapped) =
        wrap_for_user_then_unwrap c vk.inner kp.inner g a h f x m v hk correct in
      let (sent, _, _) = wrapped_vault_key_round_trip c w b ne nc in
      let (received, _, _) =
        user_public_keys_round_trip c keys b (rw v.x25519_public_eq (x.length-public_to_bytes _))
          (rw v.mlkem_public_eq (m.length-to_bytes _)) in
      (
        record {
          encrypted_vault_key_b64 = Wrapped.encrypted_vault_key_base64 c w;
          eph_pub_key_b64 = Wrapped.eph_pub_key_base64 c w;
          mlkem_ciphertext_b64 = Wrapped.mlkem_ciphertext_base64 c w;
        },
        g',
        ground (arith, received, wrapped),
        ground (arith, sent, unwrapped),
      )

  -- With crates that behave as documented and a complete keypair: the browser seals the keypair
  -- under a master key as a text of 96 characters, and it opens this text under that master key to
  -- the same keypair.
  pub browser_private_key_round_trip :
      (kp : KeypairHandle c) (mk : MasterKeyHandle) (g : Rng c)
      → IsBase64 c.base64
      → IsAead c.xchacha
      → IsHkdf c.hkdf
      → IsFilling c.rand
      → IsX25519 c.x25519
      → IsUserKeypair c kp.inner
      → (text : Text) × (g' : Rng c) × (encrypt_private_key c kp mk g ≡ (ok text, g'))
        × (length text ≡ 96)
        × (decrypt_private_key c text mk ≡ ok kp)
  unfolding encrypt_private_key decrypt_private_key
  browser_private_key_round_trip kp mk g b a h f x v =
      let (enc, g', e, hn, n, opened) =
        encrypt_then_decrypt_private_key c kp.inner mk.inner g a h f x v in
      let (read, size) = encrypted_private_key_round_trip c enc b hn (omega arith) in
      (
        Sealed.to_base64 c enc,
        g',
        ground (arith, e),
        omega (arith, size),
        ground (arith, read, opened),
      )
