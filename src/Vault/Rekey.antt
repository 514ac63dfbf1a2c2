-- ===== src/Vault/Rekey.antt =====
-- Re-encryption under a new key: `reencrypt_vault` of src/vault.rs.
use evnx_crypto.Base.{◌+◌, ◌^◌, ◌≤◌, ◌≡◌, ◌⊎◌, inl, inr, length, arith}
use evnx_crypto.Base.Bytes.{Bytes}
use evnx_crypto.Base.Outcome.{ok, err}
use evnx_crypto.Crates.{Crates, Rng}
use evnx_crypto.Crates.Random.{IsFilling}
use evnx_crypto.Crates.Sealing.{IsAead}
use evnx_crypto.Errors.{CryptoError, decryption}
use evnx_crypto.Vault.Blob.{encrypt_vault_total, decrypt_vault_cases, decrypt_vault-eq_ok_iff}
use evnx_crypto.Vault.Open.{EncryptedBlob, IsBlob, decrypt_vault}
use evnx_crypto.Vault.Seal.{encrypt_vault, reencrypt_vault}
use evnx_crypto.Vault.VaultKey.{VaultKey, IsVaultKey}

module _ (c : Crates) where
  reencrypt_vault_lem :
      (b : EncryptedBlob) (old new : VaultKey) (aad : Bytes) (g : Rng c) {m : Bytes}
      → decrypt_vault c b old aad ≡ ok m
      → reencrypt_vault c b old new aad g ≡ encrypt_vault c m new aad g
  unfolding reencrypt_vault
  reencrypt_vault_lem b old new aad g h = rw h

  reencrypt_vault_refused :
      (b : EncryptedBlob) (old new : VaultKey) (aad : Bytes) (g : Rng c) {e : CryptoError}
      → decrypt_vault c b old aad ≡ err e
      → reencrypt_vault c b old new aad g ≡ (err e, g)
  unfolding reencrypt_vault
  reencrypt_vault_refused b old new aad g h = rw h

  -- What opens has 16 bytes less than the ciphertext.
  length-decrypt_vault :
      (b : EncryptedBlob) (k : VaultKey) (aad : Bytes) {m : Bytes}
      → IsAead c.aes
      → IsVaultKey k
      → IsBlob b
      → decrypt_vault c b k aad ≡ ok m
      → length b.ciphertext ≡ length m + 16
  length-decrypt_vault b k aad {m} a hk hb h =
      a.length-encrypt _ b.nonce aad m b.ciphertext
        ((decrypt_vault-eq_ok_iff c b k aad m a hk hb).0 h)

  -- A blob that opens is brought under the new key.
  pub reencrypt_vault_opened :
      (b : EncryptedBlob) (old new : VaultKey) (aad : Bytes) (g : Rng c) {m : Bytes}
      → IsAead c.aes
      → IsFilling c.rand
      → IsVaultKey new
      → length m ≤ 2 ^ 32
      → length aad ≤ 2 ^ 32
      → decrypt_vault c b old aad ≡ ok m
      → (b' : EncryptedBlob) × (g' : Rng c) × (reencrypt_vault c b old new aad g ≡ (ok b', g'))
        × IsBlob b'
        × (length b'.ciphertext ≡ length m + 16)
        × (decrypt_vault c b' new aad ≡ ok m)
  reencrypt_vault_opened b old new aad g {m} a f hn hm ha h =
      let (b', g', e, hb, n, opened) = encrypt_vault_total c m aad new g a f hn hm ha in
      (b', g', rw (reencrypt_vault_lem b old new aad g h) e, hb, n, opened)

  -- With an AES-GCM and a generator that behave as documented, keys of 32 bytes, a nonce of 12, and
  -- a ciphertext and associated data of at most 2 ^ 32 bytes each: either the blob decrypts under
  -- the old key, and re-encryption gives a blob with a ciphertext of the same length that decrypts
  -- to the same plaintext under the new key and the same associated data; or the blob does not
  -- decrypt under the old key, and re-encryption fails with the same error and draws no randomness.
  pub reencrypt_vault_cases :
      (b : EncryptedBlob) (old new : VaultKey) (aad : Bytes) (g : Rng c)
      → IsAead c.aes
      → IsFilling c.rand
      → IsVaultKey old
      → IsVaultKey new
      → IsBlob b
      → length b.ciphertext ≤ 2 ^ 32
      → length aad ≤ 2 ^ 32
      → ((m : Bytes) × (b' : EncryptedBlob) × (g' : Rng c) × (decrypt_vault c b old aad ≡ ok m)
          × (reencrypt_vault c b old new aad g ≡ (ok b', g'))
          × IsBlob b'
          × (length b'.ciphertext ≡ length b.ciphertext)
          × (decrypt_vault c b' new aad ≡ ok m))
        ⊎ ((decrypt_vault c b old aad ≡ err decryption)
            × (reencrypt_vault c b old new aad g ≡ (err decryption, g)))
  reencrypt_vault_cases b old new aad g a f ho hn hb hc ha =
      elim (decrypt_vault_cases c b old aad ho hb) [
        | inr refused ↦ inr (refused, reencrypt_vault_refused b old new aad g refused)
        | inl (m, h) ↦
            let n = length-decrypt_vault b old aad a ho hb h in
            let (b', g', run, hb', n', opened) =
              reencrypt_vault_opened b old new aad g a f hn (omega arith) ha h in
            inl (m, b', g', h, run, hb', omega arith, opened)
      ]
