-- ===== src/Wasm/Calls.antt =====
-- The functions of src/wasm.rs that draw no randomness.
use evnx_crypto.Base.Bytes.{Bytes, Text}
use evnx_crypto.Base.Outcome.{ok, ◌>>=◌, ◌>>◌, map_err, or_err, fail_if}
use evnx_crypto.Base.Slices.{copy_from_slice, slice_to, slice_from}
use evnx_crypto.Base.{ℕ, length, ltb}
use evnx_crypto.Crates.{Crates}
use evnx_crypto.Encoding.{b64_encode, b64_decode}
use evnx_crypto.Kdf
use evnx_crypto.Keypair.EncryptedPrivateKey as Sealed
use evnx_crypto.Keypair.PrivateKey
use evnx_crypto.Keypair.Unwrap
use evnx_crypto.Keypair.WrappedVaultKey as Wrapped
use evnx_crypto.Srp.Steps
use evnx_crypto.Vault.Identity
use evnx_crypto.Vault.Identity.{vault_aad}
use evnx_crypto.Vault.Open
use evnx_crypto.Vault.Open.{EncryptedBlob, nonce_len}
use evnx_crypto.Wasm.Handles.{
  JsResult, js, MasterKeyHandle, VaultKeyHandle, KeypairHandle, SrpEphemeralHandle, SrpProofHandle,
  VerifierBundle,
}

module _ (c : Crates) where
  unfoldable pub salt_from_b64 : Text → JsResult Bytes
  salt_from_b64 s = map_err js (Kdf.salt_from_base64 c s)

  unfoldable pub derive_master_key : Text → Text → JsResult MasterKeyHandle
  derive_master_key password argon2_salt_b64 = do
    salt ← salt_from_b64 argon2_salt_b64
    inner ← map_err js (Kdf.derive_master_key c password salt)
    ok (record { inner = inner })

  unfoldable pub derive_srp_password : Text → Text → JsResult Text
  derive_srp_password password srp_salt_b64 = do
    salt ← salt_from_b64 srp_salt_b64
    out ← map_err js (Kdf.derive_srp_password c password salt)
    ok (b64_encode c out)

  unfoldable pub unwrap_vault_key : Bytes → MasterKeyHandle → JsResult VaultKeyHandle
  unwrap_vault_key wrapped mk = do
    inner ← map_err js (Open.unwrap_vault_key_with_master_key c wrapped mk.inner)
    ok (record { inner = inner })

  unfoldable pub blob_hash : Bytes → Text
  blob_hash ciphertext = Identity.blob_hash c ciphertext

  unfoldable pub decrypt_vault : Bytes → VaultKeyHandle → Text → ℕ → JsResult Bytes
  decrypt_vault blob vk vault_id version = do
    fail_if (ltb (length blob) nonce_len) (record { message = "blob shorter than a nonce" })
    n ← slice_to nonce_len blob
    ciphertext ← slice_from nonce_len blob
    nonce ← copy_from_slice nonce_len n
    let eb : EncryptedBlob = record { nonce = nonce; ciphertext = ciphertext }
    let aad = vault_aad vault_id version
    map_err js (Open.decrypt_vault c eb vk.inner aad)

  unfoldable pub unwrap_shared_vault_key :
      KeypairHandle c → Text → Text → Text → JsResult VaultKeyHandle
  unwrap_shared_vault_key kp encrypted_vault_key_b64 eph_pub_key_b64 mlkem_ciphertext_b64 = do
    wrapped ←
        map_err js
          (Wrapped.from_base64 c encrypted_vault_key_b64 eph_pub_key_b64 mlkem_ciphertext_b64)
    vk ← map_err js (Unwrap.unwrap_vault_key c wrapped kp.inner)
    ok (record { inner = vk })

  unfoldable pub compute_verifier : Text → Text → Text → JsResult VerifierBundle
  compute_verifier email srp_password_b64 srp_salt_b64 = do
    pw ← map_err js (b64_decode c srp_password_b64 "srp_password")
    salt ← salt_from_b64 srp_salt_b64
    v ← map_err js (Steps.compute_verifier c email pw salt)
    ok (record { verifier_hex = Steps.verifier_hex c v; srp_salt_b64 = Steps.srp_salt_base64 c v })

  unfoldable pub compute_client_proof :
      Text → Text → Text → Text → SrpEphemeralHandle → JsResult (SrpProofHandle c)
  compute_client_proof email srp_password_b64 srp_salt_b64 server_public_b_hex ephemeral = do
    pw ← map_err js (b64_decode c srp_password_b64 "srp_password")
    salt ← salt_from_b64 srp_salt_b64
    b ←
        or_err (c.hex.decode server_public_b_hex)
          (record { message = "server_public_b is not valid hex" })
    inner ← map_err js (Steps.compute_client_proof c email pw salt b ephemeral.inner)
    ok (record { inner = inner })

  unfoldable pub verify_server_proof : Text → SrpProofHandle c → JsResult (Unit {0})
  verify_server_proof server_proof_hex proof = do
    m2 ←
        or_err (c.hex.decode server_proof_hex)
          (record { message = "server_proof is not valid hex" })
    map_err js (Steps.verify_server_proof c m2 proof.inner)

  unfoldable pub decrypt_private_key : Text → MasterKeyHandle → JsResult (KeypairHandle c)
  decrypt_private_key encrypted_b64 mk = do
    enc ← map_err js (Sealed.from_base64 c encrypted_b64)
    inner ← map_err js (PrivateKey.decrypt_private_key c enc mk.inner)
    ok (record { inner = inner })
