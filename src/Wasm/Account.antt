-- ===== src/Wasm/Account.antt =====
-- An account of the browser: what is registered, and what a later login restores from it.
use evnx_crypto.Base.Bytes.{Bytes, Text}
use evnx_crypto.Base.Outcome.{ok}
use evnx_crypto.Base.{◌^◌, ◌≤◌, ◌<◌, ◌≡◌, length, arith, ℕ}
use evnx_crypto.Crates.Coding.{IsBase64}
use evnx_crypto.Crates.Curve.{IsEd25519, IsX25519}
use evnx_crypto.Crates.Kdf.{IsArgon2, IsHkdf}
use evnx_crypto.Crates.Kem.{IsMlKem}
use evnx_crypto.Crates.Random.{IsFilling}
use evnx_crypto.Crates.Sealing.{IsAead}
use evnx_crypto.Crates.{Crates, Rng}
use evnx_crypto.Encoding.Wire.{b64_decode_array-b64_encode}
use evnx_crypto.Kdf
use evnx_crypto.Kdf.Derivation.{derive_master_key_total}
use evnx_crypto.Keypair.Laws.Identity.{IsUserKeypair, generate_keypair_total}
use evnx_crypto.Vault.VaultKey
use evnx_crypto.Vault.VaultKey.{IsVaultKey}
use evnx_crypto.Vault.Wrap.{wrap_then_unwrap}
use evnx_crypto.Wasm.Calls.{
  salt_from_b64, derive_master_key, decrypt_private_key, unwrap_vault_key, decrypt_vault,
}
use evnx_crypto.Wasm.Draws.{
  generate_salt, generate_keypair, encrypt_private_key, create_vault_key, wrap_vault_key,
  encrypt_vault,
}
use evnx_crypto.Wasm.Handles.{MasterKeyHandle, VaultKeyHandle, KeypairHandle}
use evnx_crypto.Wasm.Sharing.{browser_private_key_round_trip}
use evnx_crypto.Wasm.Vaults.{browser_round_trip}

module _ (c : Crates) where
  -- The text of a generated salt is one from which a master key can be derived.
  derive_master_key-generate_salt :
      (password : Text) (g : Rng c)
      → IsBase64 c.base64
      → IsArgon2 c.argon2
      → IsFilling c.rand
      → length password < 2 ^ 32
      → (mk : MasterKeyHandle) × (derive_master_key c password (generate_salt c g).0 ≡ ok mk)
  unfolding derive_master_key salt_from_b64 generate_salt Kdf.generate_salt Kdf.salt_to_base64
      Kdf.salt_from_base64
  derive_master_key-generate_salt password g b a f n =
      let salt = (c.rand.fill_bytes 32 g).0 in
      let hs : length salt ≡ 32 = f.length-fill_bytes 32 g in
      let (mk, e, _) = derive_master_key_total c password salt a n hs in
      (record { inner = mk }, ground (arith, b64_decode_array-b64_encode c 32 salt "salt" b hs, e))

  pub create-IsVaultKey : (g : Rng c) → IsFilling c.rand → IsVaultKey (create_vault_key c g).0.inner
  unfolding create_vault_key VaultKey.generate
  create-IsVaultKey g f = f.length-fill_bytes 32 g

  pub browser_wrap_round_trip :
      (vk : VaultKeyHandle) (mk : MasterKeyHandle) (g : Rng c)
      → IsAead c.xchacha
      → IsHkdf c.hkdf
      → IsFilling c.rand
      → IsVaultKey vk.inner
      → (w : Bytes) × (g' : Rng c) × (wrap_vault_key c vk mk g ≡ (ok w, g'))
        × (unwrap_vault_key c w mk ≡ ok vk)
  unfolding wrap_vault_key unwrap_vault_key
  browser_wrap_round_trip vk mk g a h f hk =
      let (w, g', e, _, u) = wrap_then_unwrap c vk.inner mk.inner g a h f hk in
      (w, g', ground (arith, e), ground (arith, u))

  pub generate_complete :
      (g : Rng c)
      → IsHkdf c.hkdf
      → IsMlKem c.mlkem
      → IsEd25519 c.ed25519
      → IsX25519 c.x25519
      → (kp : KeypairHandle c) × (g' : Rng c) × (generate_keypair c g ≡ (ok kp, g'))
        × IsUserKeypair c kp.inner
  unfolding generate_keypair
  generate_complete g h m ed x =
      let (kp, g', e, v) = generate_keypair_total c g h m ed x in
      (record { inner = kp }, g', ground (arith, e), v)

  -- With crates that behave as documented, a password below 2 ^ 32 bytes, a plaintext of at most 2
  -- ^ 32 and a vault id below 2 ^ 31: the calls of a registration, made one after the other by the
  -- browser on a fresh salt, all succeed: deriving the master key, generating a keypair, sealing
  -- it, creating a vault key, wrapping it under the master key, and encrypting the plaintext for
  -- the vault id and a version. With the master key of that password and salt the browser then
  -- opens the sealed keypair to the same keypair, unwraps the vault key to the same vault key, and
  -- decrypts the blob at that id and version to the plaintext.
  pub login_restores_account :
      (password : Text) (m : Bytes) (id : Text) (v : ℕ) (g : Rng c)
      → IsBase64 c.base64
      → IsArgon2 c.argon2
      → IsHkdf c.hkdf
      → IsAead c.xchacha
      → IsAead c.aes
      → IsFilling c.rand
      → IsEd25519 c.ed25519
      → IsX25519 c.x25519
      → IsMlKem c.mlkem
      → length password < 2 ^ 32
      → length m ≤ 2 ^ 32
      → length id < 2 ^ 31
      → let (salt, g1) = generate_salt c g in
        (mk : MasterKeyHandle) × (kp : KeypairHandle c) × (g2 : Rng c) × (text : Text) × (g3 : Rng
          c)
        × (wrapped : Bytes) × (g4 : Rng c) × (blob : Bytes) × (g5 : Rng c) × (derive_master_key c
              password salt
            ≡ ok mk)
        × (generate_keypair c g1 ≡ (ok kp, g2))
        × (encrypt_private_key c kp mk g2 ≡ (ok text, g3))
        × (wrap_vault_key c (create_vault_key c g3).0 mk (create_vault_key c g3).1
            ≡ (ok wrapped, g4))
        × (encrypt_vault c m (create_vault_key c g3).0 id v g4 ≡ (ok blob, g5))
        × (decrypt_private_key c text mk ≡ ok kp)
        × (unwrap_vault_key c wrapped mk ≡ ok (create_vault_key c g3).0)
        × (decrypt_vault c blob (create_vault_key c g3).0 id v ≡ ok m)
  login_restores_account password m id v g b ar h ax aa f ed x ml hp hm hid =
      let (salt, g1) = generate_salt c g in
      let (mk, derived) = derive_master_key-generate_salt password g b ar f hp in
      let (kp, g2, generated, complete) = generate_complete g1 h ml ed x in
      let (text, g3, sealed, _, opened) =
        browser_private_key_round_trip c kp mk g2 b ax h f x complete in
      let (vk, g3') = create_vault_key c g3 in
      let hk = create-IsVaultKey g3 f in
      let (wrapped, g4, wrap, unwrap) = browser_wrap_round_trip vk mk g3' ax h f hk in
      let (blob, g5, encrypted, _, decrypted) = browser_round_trip c m vk id v g4 aa f hk hm hid in
      (
        mk, kp, g2, text, g3, wrapped, g4, blob, g5, derived, generated, sealed, wrap, encrypted,
        opened, unwrap, decrypted,
      )
