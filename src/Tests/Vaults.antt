-- ===== src/Tests/Vaults.antt =====
-- The theorems about vaults and their keys at concrete inputs.
use evnx_crypto.Base.Bytes.{Bytes, ascii, to_byte, zeros, bytes_eq}
use evnx_crypto.Base.Outcome.{ok, err}
use evnx_crypto.Base.{
  ℕ, ◌+◌, ◌≤◌, ◌<◌, ◌≡◌, ◌≢◌, ◌⊎◌, ◌↔◌, refl, arith, some, [], ◌++◌, length, take, drop, replicate,
  ap,
}
use evnx_crypto.Errors.{decryption, invalid_input, key_unwrap}
use evnx_crypto.Kdf.Derivation.{Hashes, reused_salt-collision}
use evnx_crypto.Kdf.MasterKey
use evnx_crypto.Kdf.MasterKey.{MasterKey, IsMasterKey}
use evnx_crypto.Kdf.{derive_master_key, derive_srp_password, hkdf_subkey}
use evnx_crypto.Tests.Data.{vk, new_vk, mk, salt, password, plaintext, id, other_id, sealed}
use evnx_crypto.Tests.Toy.{crates, fit}
use evnx_crypto.Tests.ToyLaws.{aead-IsAead, rand-IsFilling, hkdf-IsHkdf}
use evnx_crypto.Vault.Aad.{vault_aad-injective}
use evnx_crypto.Vault.Blob.{
  AadForgery, decrypt_vault-eq_ok_iff, encrypt_vault_total, replay-AadForgery,
}
use evnx_crypto.Vault.Identity.{vault_aad}
use evnx_crypto.Vault.Open.{EncryptedBlob, IsBlob, decrypt_vault, unwrap_vault_key_with_master_key}
use evnx_crypto.Vault.Rekey.{reencrypt_vault_cases}
use evnx_crypto.Vault.Seal.{encrypt_vault, reencrypt_vault}
use evnx_crypto.Vault.VaultKey
use evnx_crypto.Vault.VaultKey.{VaultKey, IsVaultKey}
use evnx_crypto.Vault.Wrap.{IsWrapCipher, unwrap_accepts_wraps, unwrap_other_length}
use evnx_crypto.Zeroize.SecretArray

vault_aad-injective_example : (id ≡ id) × (◌≡◌ {A = ℕ} 7 7)
vault_aad-injective_example = vault_aad-injective id id 7 7 (omega arith) (omega arith) refl

-- The concrete cipher authenticates the last four bytes of the associated data only, so a blob of
-- one vault opens as that of another at the same version: it is forged.
sealed_by_code :
    encrypt_vault crates plaintext vk (vault_aad id 7) 3 ≡ (ok (sealed (vault_aad id 7)), 4)
unfolding encrypt_vault VaultKey.expose vault_aad
sealed_by_code = refl

opened_as_other :
    decrypt_vault crates (sealed (vault_aad id 7)) vk (vault_aad other_id 7) ≡ ok plaintext
unfolding decrypt_vault VaultKey.expose vault_aad
opened_as_other = refl

ids_differ : ¬ ((id ≡ other_id) × (◌≡◌ {A = ℕ} 7 7))
ids_differ (e, _) = cc (ap (λ b. bytes_eq b other_id) e)

replay-AadForgery_example : AadForgery crates vk (sealed (vault_aad id 7))
replay-AadForgery_example =
    replay-AadForgery crates plaintext plaintext id other_id 7 7 vk 3 aead-IsAead (omega arith)
      (omega arith) ids_differ sealed_by_code opened_as_other

encrypt_vault_total_example :
    (b : EncryptedBlob) × (g' : ℕ) × (encrypt_vault crates plaintext vk (vault_aad id 7) 3
      ≡ (ok b, g'))
    × IsBlob b
    × (length b.ciphertext ≡ length plaintext + 16)
    × (decrypt_vault crates b vk (vault_aad id 7) ≡ ok plaintext)
unfolding vault_aad
encrypt_vault_total_example =
    encrypt_vault_total crates plaintext (vault_aad id 7) vk 3 aead-IsAead rand-IsFilling refl
      (omega arith) (omega arith)

decrypt_vault-eq_ok_iff_example : (decrypt_vault crates (sealed []) vk [] ≡ ok plaintext) ↔ (
    crates.aes.encrypt (crates.aes.new vk.bytes) (sealed []).nonce [] plaintext
    ≡ some (sealed []).ciphertext)
decrypt_vault-eq_ok_iff_example =
    decrypt_vault-eq_ok_iff crates (sealed []) vk [] plaintext aead-IsAead refl refl

reencrypt_vault_cases_example :
    ((m : Bytes) × (b' : EncryptedBlob) × (g' : ℕ) × (decrypt_vault crates (sealed []) vk [] ≡ ok m)
      × (reencrypt_vault crates (sealed []) vk new_vk [] 6 ≡ (ok b', g'))
      × IsBlob b'
      × (length b'.ciphertext ≡ length (sealed []).ciphertext)
      × (decrypt_vault crates b' new_vk [] ≡ ok m))
    ⊎ ((decrypt_vault crates (sealed []) vk [] ≡ err decryption)
        × (reencrypt_vault crates (sealed []) vk new_vk [] 6 ≡ (err decryption, 6)))
reencrypt_vault_cases_example =
    reencrypt_vault_cases crates (sealed []) vk new_vk [] 6 aead-IsAead rand-IsFilling refl refl
      refl (omega arith) (omega arith)

abbrev wrapped : Bytes
wrapped = replicate 24 (to_byte 3) ++ (vk.bytes ++ take 16 (ascii "evnx-vault-key-wrap-mk-v1"))

unwrapped_by_code : unwrap_vault_key_with_master_key crates wrapped mk ≡ ok vk
unfolding unwrap_vault_key_with_master_key hkdf_subkey SecretArray.expose MasterKey.expose
    VaultKey.from_bytes
unwrapped_by_code = refl

unwrap_accepts_wraps_example :
    IsVaultKey vk
    × (length wrapped ≡ 72)
    × (k : crates.xchacha.Cipher) × IsWrapCipher crates mk k
    × (crates.xchacha.encrypt k (take 24 wrapped) [] vk.bytes ≡ some (drop 24 wrapped))
unwrap_accepts_wraps_example =
    unwrap_accepts_wraps crates wrapped mk aead-IsAead hkdf-IsHkdf unwrapped_by_code

unwrap_other_length_example :
    ((length (zeros 60) < 56)
      × (unwrap_vault_key_with_master_key crates (zeros 60) mk
          ≡ err (invalid_input "wrapped key too short")))
    ⊎ ((56 ≤ length (zeros 60))
        × (unwrap_vault_key_with_master_key crates (zeros 60) mk ≡ err key_unwrap))
    ⊎ ((56 ≤ length (zeros 60))
        × (unwrap_vault_key_with_master_key crates (zeros 60) mk
            ≡ err (invalid_input "decrypted key wrong length")))
unwrap_other_length_example =
    unwrap_other_length crates (zeros 60) mk aead-IsAead hkdf-IsHkdf (omega arith)

derived_by_code :
    derive_master_key crates password salt ≡ ok (record { bytes = fit 32 (password ++ salt) })
unfolding derive_master_key
derived_by_code = refl

srp_derived_by_code : derive_srp_password crates password salt ≡ ok (fit 32 (password ++ salt))
unfolding derive_srp_password
srp_derived_by_code = refl

-- The concrete Argon2id ignores its secret, so it collides.
reused_salt-collision_example :
    (s : Bytes) × (t : Bytes) × (s ≢ t)
    × Hashes crates s password salt (fit 32 (password ++ salt))
    × Hashes crates t password salt (fit 32 (password ++ salt))
reused_salt-collision_example =
    reused_salt-collision crates password salt derived_by_code srp_derived_by_code refl
