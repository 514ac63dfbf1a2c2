-- ===== src/Wasm/Sizes.antt =====
-- The sizes of what the bindings of src/wasm.rs give out.
use evnx_crypto.Base.Bytes.{Bytes, Text}
use evnx_crypto.Base.Outcome.{ok, Outcome-cases}
use evnx_crypto.Base.{
  ℕ, ◌+◌, ◌≤◌, ◌≡◌, inl, inr, some, length, length-append, length-take, length-drop, take, drop,
  arith,
}
use evnx_crypto.Crates.Coding.{IsBase64}
use evnx_crypto.Crates.Curve.{IsEd25519, IsX25519}
use evnx_crypto.Crates.Kdf.{IsArgon2}
use evnx_crypto.Crates.Kem.{IsMlKem}
use evnx_crypto.Crates.Random.{IsFilling}
use evnx_crypto.Crates.Sealing.{IsAead}
use evnx_crypto.Crates.{Crates, Rng}
use evnx_crypto.Encoding.{b64_decode, b64_decode_array}
use evnx_crypto.Kdf
use evnx_crypto.Keypair.Ed25519PublicKey as Ed25519
use evnx_crypto.Keypair.EncryptedPrivateKey as Sealed
use evnx_crypto.Keypair.FreshCipher.{new_xchacha_cipher}
use evnx_crypto.Keypair.Generate
use evnx_crypto.Keypair.Laws.Identity.{IsUserKeypair}
use evnx_crypto.Keypair.Laws.Wire.{length-b64_encode}
use evnx_crypto.Keypair.MlKem768PublicKey as Public
use evnx_crypto.Keypair.Types.{UserPublicKeys, WrappedVaultKey}
use evnx_crypto.Keypair.UserKeypair as Own
use evnx_crypto.Keypair.UserPublicKeys as Keys
use evnx_crypto.Keypair.Wrap
use evnx_crypto.Keypair.WrappedVaultKey as Wrapped
use evnx_crypto.Keypair.X25519PublicKeyBytes as X25519
use evnx_crypto.Srp.Steps
use evnx_crypto.Vault.Blob.{decrypt_vault-eq_ok_iff}
use evnx_crypto.Vault.Identity.{vault_aad}
use evnx_crypto.Vault.Open
use evnx_crypto.Vault.Seal
use evnx_crypto.Vault.VaultKey
use evnx_crypto.Vault.VaultKey.{VaultKey, IsVaultKey}
use evnx_crypto.Wasm.Calls
use evnx_crypto.Wasm.Calls.{salt_from_b64}
use evnx_crypto.Wasm.Draws
use evnx_crypto.Wasm.Handles
use evnx_crypto.Wasm.Handles.{
  MasterKeyHandle, VaultKeyHandle, KeypairHandle, VerifierBundle, WrappedKeyBundle,
}
use evnx_crypto.Wasm.Vaults.{decrypt_vault_short}
use native.Mathlib.Decide.{dec_lt}

module _ (c : Crates) where
  pub read_salt :
      (s : Text) {salt : Bytes}
      → salt_from_b64 c s ≡ ok salt
      → (c.base64.decode s ≡ some salt) × (length salt ≡ 32)
  unfolding salt_from_b64 Kdf.salt_from_base64 b64_decode_array b64_decode
  read_salt s e = (ground arith, ground arith)

  pub length-generate_salt :
      (g : Rng c) → IsBase64 c.base64 → IsFilling c.rand → length (Draws.generate_salt c g).0 ≡ 44
  unfolding Draws.generate_salt Kdf.generate_salt Kdf.salt_to_base64
  length-generate_salt g b f =
      let n = f.length-fill_bytes 32 g in
      omega (arith, n, length-b64_encode c (c.rand.fill_bytes 32 g).0 b)

  pub length-encrypt_vault :
      (p : Bytes) (k : VaultKeyHandle) (id : Text) (v : ℕ) (g : Rng c) {blob : Bytes}
      → IsAead c.aes
      → (Draws.encrypt_vault c p k id v g).0 ≡ ok blob
      → length blob ≡ length p + 28
  unfolding Draws.encrypt_vault Seal.encrypt_vault
  length-encrypt_vault p k id v g a e = grind (arith, length-append, a.length-encrypt)

  pub length-wrap_vault_key :
      (k : VaultKeyHandle) (mk : MasterKeyHandle) (g : Rng c) {w : Bytes}
      → IsAead c.xchacha
      → IsFilling c.rand
      → IsVaultKey k.inner
      → (Draws.wrap_vault_key c k mk g).0 ≡ ok w
      → length w ≡ 72
  unfolding Draws.wrap_vault_key Seal.wrap_vault_key_with_master_key VaultKey.expose
  length-wrap_vault_key k mk g a f hk e =
      grind (arith, length-append, a.length-encrypt, f.length-fill_bytes)

  opened_blob :
      (blob : Bytes) (k : VaultKeyHandle) (id : Text) (v : ℕ) {p : Bytes}
      → 12 ≤ length blob
      → Calls.decrypt_vault c blob k id v ≡ ok p
      → Open.decrypt_vault c
          (record { nonce = take 12 blob; ciphertext = drop 12 blob })
          k.inner
          (vault_aad id v)
        ≡ ok p
  unfolding Calls.decrypt_vault
  opened_blob blob k id v long e =
      let hb : length (take 12 blob) ≡ 12 = omega (arith, length-take 12 blob) in ground arith

  pub length-decrypt_vault :
      (blob : Bytes) (k : VaultKeyHandle) (id : Text) (v : ℕ) {p : Bytes}
      → IsAead c.aes
      → IsVaultKey k.inner
      → Calls.decrypt_vault c blob k id v ≡ ok p
      → length blob ≡ length p + 28
  length-decrypt_vault blob k id v {p} a hk e = elim (dec_lt (length blob) 12) [
    | yes short ↦ absurd (ground (arith, decrypt_vault_short c blob k id v short))
    | no long ↦
        let hb : length (take 12 blob) ≡ 12 = omega (arith, length-take 12 blob) in
        let sealed =
          (decrypt_vault-eq_ok_iff c (record { nonce = take 12 blob; ciphertext = drop 12 blob })
              k.inner (vault_aad id v) p a hk hb).0
            (opened_blob blob k id v (omega arith) e) in
        omega (arith, length-drop 12 blob, a.length-encrypt _ _ _ p _ sealed)
  ]

  pub length-encrypt_private_key :
      (kp : KeypairHandle c) (mk : MasterKeyHandle) (g : Rng c) {t : Text}
      → IsBase64 c.base64
      → IsAead c.xchacha
      → IsFilling c.rand
      → IsUserKeypair c kp.inner
      → (Draws.encrypt_private_key c kp mk g).0 ≡ ok t
      → length t ≡ 96
  unfolding Draws.encrypt_private_key Generate.encrypt_private_key new_xchacha_cipher
      Sealed.to_base64
  length-encrypt_private_key kp mk g b a f v e = grind (
    arith, length-append, a.length-encrypt, f.length-fill_bytes, length-b64_encode, v.seed_length,
  )

  pub length-derive_srp_password :
      (password salt : Text) {t : Text}
      → IsBase64 c.base64
      → IsArgon2 c.argon2
      → Calls.derive_srp_password c password salt ≡ ok t
      → length t ≡ 44
  unfolding Calls.derive_srp_password Kdf.derive_srp_password
  length-derive_srp_password password salt b a e =
      grind (arith, length-b64_encode, a.length-hash_password_into)

  pub length-public_keys :
      (kp : KeypairHandle c)
      → IsBase64 c.base64
      → IsEd25519 c.ed25519
      → IsX25519 c.x25519
      → IsMlKem c.mlkem
      → IsUserKeypair c kp.inner
      → (length (Handles.ed25519_public_key c kp) ≡ 44)
        × (length (Handles.x25519_public_key c kp) ≡ 44)
        × (length (Handles.mlkem_public_key c kp) ≡ 1580)
  unfolding Handles.ed25519_public_key Handles.x25519_public_key Handles.mlkem_public_key
      Own.ed25519_public_base64 Own.x25519_public_base64 Own.mlkem_public_base64 Ed25519.to_base64
      X25519.to_base64 Public.to_base64
  length-public_keys kp b ed x m v = (
    grind (arith, length-b64_encode, ed.length-verifying_key, v.ed25519_public_eq),
    grind (arith, length-b64_encode, x.length-public_to_bytes, v.x25519_public_eq),
    grind (arith, length-b64_encode, m.length-to_bytes, v.mlkem_public_eq),
  )

  pub length-compute_verifier :
      (email password salt : Text) {r : VerifierBundle}
      → IsBase64 c.base64
      → Calls.compute_verifier c email password salt ≡ ok r
      → length (Handles.srp_salt r) ≡ 44
  unfolding Calls.compute_verifier Steps.compute_verifier Steps.srp_salt_base64 Handles.srp_salt
  length-compute_verifier email password salt b e =
      grind (arith, length-b64_encode, λ (s : Bytes). read_salt salt {salt = s})

  -- A wrap for a user, whoever that is.
  pub lengths-wrap_for_user :
      (k : VaultKey) (to : UserPublicKeys) (g : Rng c) {w : WrappedVaultKey}
      → IsAead c.xchacha
      → IsFilling c.rand
      → IsX25519 c.x25519
      → IsMlKem c.mlkem
      → IsVaultKey k
      → (Wrap.wrap_vault_key_for_user c k to g).0 ≡ ok w
      → (length w.eph_pub_key ≡ 32)
        × (length w.mlkem_ciphertext ≡ 1088)
        × (length w.encrypted_vault_key ≡ 72)
  unfolding Wrap.wrap_vault_key_for_user Wrap.mlkem_encapsulate new_xchacha_cipher VaultKey.expose
  lengths-wrap_for_user k to g a f x m hk e = (
    grind (arith, x.length-public_to_bytes),
    grind (arith, m.length-ciphertext),
    grind (arith, length-append, a.length-encrypt, f.length-fill_bytes),
  )

  pub lengths-bundle :
      (k : VaultKeyHandle) (x25519 mlkem : Text) (g : Rng c) {b : WrappedKeyBundle}
      → IsBase64 c.base64
      → IsAead c.xchacha
      → IsFilling c.rand
      → IsX25519 c.x25519
      → IsMlKem c.mlkem
      → IsVaultKey k.inner
      → (Draws.wrap_vault_key_for_user c k x25519 mlkem g).0 ≡ ok b
      → (length (Handles.encrypted_vault_key b) ≡ 96)
        × (length (Handles.eph_pub_key b) ≡ 44)
        × (length (Handles.mlkem_ciphertext b) ≡ 1452)
  unfolding Draws.wrap_vault_key_for_user Handles.encrypted_vault_key Handles.eph_pub_key
      Handles.mlkem_ciphertext Wrapped.encrypted_vault_key_base64 Wrapped.eph_pub_key_base64
      Wrapped.mlkem_ciphertext_base64
  lengths-bundle k x25519 mlkem g b a f x m hk e =
      elim (Outcome-cases (Keys.from_base64 c x25519 mlkem)) [
        | inr (inl (_, er)) ↦ absurd (ground arith)
        | inr (inr er) ↦ absurd (ground arith)
        | inl (to, er) ↦ elim (Outcome-cases (Wrap.wrap_vault_key_for_user c k.inner to g).0) [
          | inr (inl (_, ew)) ↦ absurd (ground arith)
          | inr (inr ew) ↦ absurd (ground arith)
          | inl (w, ew) ↦
              let n = lengths-wrap_for_user k.inner to g a f x m hk ew in
              (
                ground (arith, n, length-b64_encode c w.encrypted_vault_key b),
                ground (arith, n, length-b64_encode c w.eph_pub_key b),
                ground (arith, n, length-b64_encode c w.mlkem_ciphertext b),
              )
        ]
      ]
