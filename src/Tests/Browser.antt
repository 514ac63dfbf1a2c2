-- ===== src/Tests/Browser.antt =====
-- The theorems about the browser's bindings at concrete inputs.
use evnx_crypto.Base.Bytes.{Bytes, Text}
use evnx_crypto.Base.Outcome.{ok, err}
use evnx_crypto.Base.{ℕ, ◌≡◌, ◌⊎◌, arith, true, false}
use evnx_crypto.Errors.{decryption}
use evnx_crypto.Tests.Data.{id, plaintext, password}
use evnx_crypto.Tests.Toy.{crates}
use evnx_crypto.Tests.ToyLaws.{
  argon2-IsArgon2, ed25519-IsEd25519, aead-IsAead, base64-IsBase64, rand-IsFilling, hkdf-IsHkdf,
  x25519-IsX25519, mlkem-IsMlKem,
}
use evnx_crypto.Vault.Identity.{vault_aad}
use evnx_crypto.Vault.Open
use evnx_crypto.Vault.Open.{EncryptedBlob}
use evnx_crypto.Vault.Seal
use evnx_crypto.Vault.VaultKey
use evnx_crypto.Wasm.Account.{login_restores_account}
use evnx_crypto.Wasm.Calls.{derive_master_key, unwrap_vault_key, decrypt_vault, decrypt_private_key}
use evnx_crypto.Wasm.Draws.{
  generate_salt, generate_keypair, create_vault_key, wrap_vault_key, encrypt_vault, aad_self_test,
  self_test_plaintext, encrypt_private_key,
}
use evnx_crypto.Wasm.Handles.{MasterKeyHandle, KeypairHandle}
use evnx_crypto.Wasm.Vaults.{OpensAsNext, next_aad, aad_self_test_passes}

aad_self_test_passes_example :
    let (k, g1) = VaultKey.generate crates 3 in
    (b : EncryptedBlob) × (g' : ℕ) × (Seal.encrypt_vault crates self_test_plaintext k
        (vault_aad id 4294967295)
        g1
      ≡ (ok b, g'))
    × (((aad_self_test crates id 4294967295 3 ≡ (ok true, g'))
          × (Open.decrypt_vault crates b k (next_aad crates id 4294967295) ≡ err decryption))
        ⊎ ((aad_self_test crates id 4294967295 3 ≡ (ok false, g'))
            × OpensAsNext crates k b id 4294967295))
aad_self_test_passes_example =
    aad_self_test_passes crates id 4294967295 3 aead-IsAead rand-IsFilling (omega arith)
      (omega arith)

login_restores_account_example :
    (m : MasterKeyHandle) × (k : KeypairHandle crates) × (g2 : ℕ) × (text : Text) × (g3 : ℕ)
    × (wrapped : Bytes) × (g4 : ℕ) × (blob : Bytes) × (g5 : ℕ) × (derive_master_key crates password
          (generate_salt crates 3).0
        ≡ ok m)
    × (generate_keypair crates (generate_salt crates 3).1 ≡ (ok k, g2))
    × (encrypt_private_key crates k m g2 ≡ (ok text, g3))
    × (wrap_vault_key crates (create_vault_key crates g3).0 m (create_vault_key crates g3).1
        ≡ (ok wrapped, g4))
    × (encrypt_vault crates plaintext (create_vault_key crates g3).0 id 7 g4 ≡ (ok blob, g5))
    × (decrypt_private_key crates text m ≡ ok k)
    × (unwrap_vault_key crates wrapped m ≡ ok (create_vault_key crates g3).0)
    × (decrypt_vault crates blob (create_vault_key crates g3).0 id 7 ≡ ok plaintext)
login_restores_account_example =
    login_restores_account crates password plaintext id 7 3 base64-IsBase64 argon2-IsArgon2
      hkdf-IsHkdf aead-IsAead aead-IsAead rand-IsFilling ed25519-IsEd25519 x25519-IsX25519
      mlkem-IsMlKem (omega arith) (omega arith) (omega arith)
