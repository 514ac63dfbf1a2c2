-- ===== src/Flows/Sharing.antt =====
-- The flows of tests/readme_flows.rs on blobs and shared keys, and the example of src/lib.rs.
use evnx_crypto.Base.{ℕ, ◌+◌, ◌^◌, ltb}
use evnx_crypto.Base.Bytes.{Bytes, Text, bytes_eq}
use evnx_crypto.Base.Outcome.{assert}
use evnx_crypto.Crates.{Crates, Rng}
use evnx_crypto.Crates.Random.{Random, lift, draw, ◌>>=◌, ◌>>◌}
use evnx_crypto.Crates.Random as Random
use evnx_crypto.Errors.{CryptoError}
use evnx_crypto.Flows.Login.{never}
use evnx_crypto.Keypair.Generate.{generate_keypair}
use evnx_crypto.Keypair.Unwrap.{unwrap_vault_key}
use evnx_crypto.Keypair.UserKeypair as Own
use evnx_crypto.Keypair.UserPublicKeys as Keys
use evnx_crypto.Keypair.Wrap.{wrap_vault_key_for_user}
use evnx_crypto.Vault.Identity.{vault_aad}
use evnx_crypto.Vault.Open.{decrypt_vault}
use evnx_crypto.Vault.Seal.{encrypt_vault}
use evnx_crypto.Vault.VaultKey

module _ (c : Crates) where
  -- An increment that overflows panics in the build that runs the tests.
  unfoldable pub readme_push_and_pull_flow :
      Text → Bytes → ℕ → Random (Rng c) CryptoError (Unit {0})
  readme_push_and_pull_flow vault_id env_file_bytes base_version = do
    keypair ← Random.map_err never (generate_keypair c)
    vault_key ← draw (VaultKey.generate c)
    wrapped ← wrap_vault_key_for_user c vault_key (Own.public_keys c keypair)
    key_for_push ← lift (unwrap_vault_key c wrapped keypair)
    lift (assert (ltb (base_version + 1) (2 ^ 32)))
    let aad = vault_aad vault_id (base_version + 1)
    blob ← encrypt_vault c env_file_bytes key_for_push aad
    let version_num = base_version + 1
    key_for_pull ← lift (unwrap_vault_key c wrapped keypair)
    let aad = vault_aad vault_id version_num
    plaintext ← lift (decrypt_vault c blob key_for_pull aad)
    lift (assert (bytes_eq plaintext env_file_bytes))

  unfoldable pub readme_share_flow : Text → Bytes → ℕ → Random (Rng c) CryptoError (Unit {0})
  readme_share_flow vault_id message version = do
    me ← Random.map_err never (generate_keypair c)
    collaborator ← Random.map_err never (generate_keypair c)
    vault_key ← draw (VaultKey.generate c)
    my_wrapped ← wrap_vault_key_for_user c vault_key (Own.public_keys c me)
    blob ← encrypt_vault c message vault_key (vault_aad vault_id version)
    collab_pub ← lift (
        Keys.from_base64 c (Own.x25519_public_base64 c collaborator)
          (Own.mlkem_public_base64 c collaborator))
    my_vault_key ← lift (unwrap_vault_key c my_wrapped me)
    wrapped_for_them ← wrap_vault_key_for_user c my_vault_key collab_pub
    their_key ← lift (unwrap_vault_key c wrapped_for_them collaborator)
    plaintext ← lift (decrypt_vault c blob their_key (vault_aad vault_id version))
    lift (assert (bytes_eq plaintext message))

  -- The example of the crate's documentation.
  unfoldable pub encrypt_and_share : Text → Bytes → ℕ → Random (Rng c) CryptoError (Unit {0})
  encrypt_and_share vault_id message version = do
    vault_key ← draw (VaultKey.generate c)
    let aad = vault_aad vault_id version
    blob ← encrypt_vault c message vault_key aad
    teammate ← Random.map_err never (generate_keypair c)
    wrapped ← wrap_vault_key_for_user c vault_key (Own.public_keys c teammate)
    their_key ← lift (unwrap_vault_key c wrapped teammate)
    plaintext ← lift (decrypt_vault c blob their_key aad)
    lift (assert (bytes_eq plaintext message))
