-- ===== src/Wasm/Draws.antt =====
-- The functions of src/wasm.rs that draw randomness.
use evnx_crypto.Base.Bytes.{Bytes, Text, ascii, bytes_eq}
use evnx_crypto.Base.Outcome.{Outcome, ok, err, panic, map_err}
use evnx_crypto.Base.{ℕ, ◌+◌, ◌%◌, ◌^◌, ◌++◌, Bool, true, false, if◌then◌else◌}
use evnx_crypto.Crates.Random.{Random, lift, draw, map_err as map_err_random, ◌>>=◌}
use evnx_crypto.Crates.{Crates, Rng}
use evnx_crypto.Kdf
use evnx_crypto.Keypair.EncryptedPrivateKey as Sealed
use evnx_crypto.Keypair.Generate
use evnx_crypto.Keypair.UserPublicKeys as Keys
use evnx_crypto.Keypair.Wrap
use evnx_crypto.Keypair.WrappedVaultKey as Wrapped
use evnx_crypto.Srp.Ephemeral
use evnx_crypto.Vault.Identity.{vault_aad}
use evnx_crypto.Vault.Open
use evnx_crypto.Vault.Seal
use evnx_crypto.Vault.VaultKey
use evnx_crypto.Wasm.Handles.{
  JsError, js, MasterKeyHandle, VaultKeyHandle, KeypairHandle, SrpEphemeralHandle, WrappedKeyBundle,
}

-- `Result::is_err`; a panic is not a value and goes on.
abbrev pub is_err {ℓ κ μ} : {E : Type ℓ} {F : Type κ} {A : Type μ} → Outcome E A → Outcome F Bool
is_err (ok a) = ok false
is_err (err e) = ok true
is_err panic = panic

abbrev pub self_test_plaintext : Bytes
self_test_plaintext = ascii "API_KEY=sk-live-example\nDATABASE_URL=postgres://localhost/db\n"

module _ (c : Crates) where
  unfoldable pub generate_salt : Rng c → Text × Rng c
  generate_salt g = let (salt, g') = Kdf.generate_salt c g in (Kdf.salt_to_base64 c salt, g')

  unfoldable pub create_vault_key : Rng c → VaultKeyHandle × Rng c
  create_vault_key g = let (key, g') = VaultKey.generate c g in (record { inner = key }, g')

  unfoldable pub wrap_vault_key : VaultKeyHandle → MasterKeyHandle → Random (Rng c) JsError Bytes
  wrap_vault_key vk mk = map_err_random js (Seal.wrap_vault_key_with_master_key c vk.inner mk.inner)

  unfoldable pub encrypt_vault : Bytes → VaultKeyHandle → Text → ℕ → Random (Rng c) JsError Bytes
  encrypt_vault plaintext vk vault_id version = do
    let aad = vault_aad vault_id version
    blob ← map_err_random js (Seal.encrypt_vault c plaintext vk.inner aad)
    lift (ok (blob.nonce ++ blob.ciphertext))

  unfoldable pub aad_self_test : Text → ℕ → Random (Rng c) JsError Bool
  aad_self_test vault_id version = do
    key ← draw (VaultKey.generate c)
    let aad = vault_aad vault_id version
    blob ← map_err_random js (Seal.encrypt_vault c self_test_plaintext key aad)
    opened ← lift (map_err js (Open.decrypt_vault c blob key aad))
    let wrong = vault_aad vault_id ((version + 1) % 2 ^ 32)
    if bytes_eq opened self_test_plaintext
        then lift (is_err (Open.decrypt_vault c blob key wrong))
        else lift (ok false)

  unfoldable pub wrap_vault_key_for_user :
      VaultKeyHandle → Text → Text → Random (Rng c) JsError WrappedKeyBundle
  wrap_vault_key_for_user vk recipient_x25519_b64 recipient_mlkem_b64 = do
    recipient ← lift (map_err js (Keys.from_base64 c recipient_x25519_b64 recipient_mlkem_b64))
    wrapped ← map_err_random js (Wrap.wrap_vault_key_for_user c vk.inner recipient)
    lift (
        ok (record {
          encrypted_vault_key_b64 = Wrapped.encrypted_vault_key_base64 c wrapped;
          eph_pub_key_b64 = Wrapped.eph_pub_key_base64 c wrapped;
          mlkem_ciphertext_b64 = Wrapped.mlkem_ciphertext_base64 c wrapped;
        }))

  unfoldable pub generate_client_ephemeral : Random (Rng c) JsError SrpEphemeralHandle
  generate_client_ephemeral = do
    inner ← map_err_random js (Ephemeral.generate_client_ephemeral c)
    lift (ok (record { inner = inner }))

  -- There is no error value, as the type says.
  unfoldable pub generate_keypair : Random (Rng c) ⊥ (KeypairHandle c)
  generate_keypair = do inner ← Generate.generate_keypair c; lift (ok (record { inner = inner }))

  unfoldable pub encrypt_private_key :
      KeypairHandle c → MasterKeyHandle → Random (Rng c) JsError Text
  encrypt_private_key kp mk = do
    enc ← map_err_random js (Generate.encrypt_private_key c kp.inner mk.inner)
    lift (ok (Sealed.to_base64 c enc))
