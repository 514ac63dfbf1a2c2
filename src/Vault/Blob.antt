-- ===== src/Vault/Blob.antt =====
-- `encrypt_vault` and `decrypt_vault` of src/vault.rs against each other.
use evnx_crypto.Base.Bytes.{Bytes, Text}
use evnx_crypto.Base.Outcome.{ok, err}
use evnx_crypto.Base.{
  ℕ, ◌+◌, ◌^◌, ◌≤◌, ◌<◌, ◌≡◌, ◌≢◌, ◌↔◌, ◌⊎◌, inl, inr, some, length, arith, Option-cases,
}
use evnx_crypto.Crates.Random.{IsFilling}
use evnx_crypto.Crates.Sealing.{IsAead}
use evnx_crypto.Crates.{Crates, Rng}
use evnx_crypto.Errors.{decryption}
use evnx_crypto.Vault.Aad.{vault_aad-injective}
use evnx_crypto.Vault.Identity.{vault_aad}
use evnx_crypto.Vault.Open.{EncryptedBlob, IsBlob, decrypt_vault}
use evnx_crypto.Vault.Seal.{encrypt_vault}
use evnx_crypto.Vault.VaultKey
use evnx_crypto.Vault.VaultKey.{VaultKey, IsVaultKey}

module _ (c : Crates) where
  -- With an AES-GCM that behaves as documented, a key of 32 bytes and a nonce of 12: a blob
  -- decrypts to a plaintext if and only if its ciphertext is what the cipher gives for that
  -- plaintext at the blob's nonce and the associated data of the call.
  pub decrypt_vault-eq_ok_iff :
      (b : EncryptedBlob) (k : VaultKey) (aad m : Bytes)
      → IsAead c.aes
      → IsVaultKey k
      → IsBlob b
      → (decrypt_vault c b k aad ≡ ok m)
        ↔ (c.aes.encrypt (c.aes.new k.bytes) b.nonce aad m ≡ some b.ciphertext)
  unfolding decrypt_vault VaultKey.expose
  decrypt_vault-eq_ok_iff b k aad m a hk hb = (
    λ h. a.encrypt-decrypt _ _ _ _ _ (ground arith),
    λ h. ground (arith, a.decrypt-encrypt _ _ _ _ _ h),
  )

  -- With a key of 32 bytes and a nonce of 12, decryption gives a plaintext or the one error
  -- `Decryption`; it does not panic.
  pub decrypt_vault_cases :
      (b : EncryptedBlob) (k : VaultKey) (aad : Bytes)
      → IsVaultKey k
      → IsBlob b
      → ((m : Bytes) × (decrypt_vault c b k aad ≡ ok m))
        ⊎ (decrypt_vault c b k aad ≡ err decryption)
  unfolding decrypt_vault VaultKey.expose
  decrypt_vault_cases b k aad hk hb =
      elim (Option-cases (c.aes.decrypt (c.aes.new k.bytes) b.nonce aad b.ciphertext)) [
        | inl e ↦ inr (ground arith)
        | inr (m, e) ↦ inl (m, ground arith)
      ]

  -- What a successful encryption did.
  pub encrypt_vault-eq_ok :
      (m aad : Bytes) (k : VaultKey) (g : Rng c) {b : EncryptedBlob} {g' : Rng c}
      → encrypt_vault c m k aad g ≡ (ok b, g')
      → IsVaultKey k
        × IsBlob b
        × (c.aes.encrypt (c.aes.new k.bytes) b.nonce aad m ≡ some b.ciphertext)
  unfolding encrypt_vault VaultKey.expose
  encrypt_vault-eq_ok m aad k g h = ground arith

  encrypt_vault_lem :
      (m aad : Bytes) (k : VaultKey) (g : Rng c) {ct : Bytes}
      → IsVaultKey k
      → length (c.rand.fill_bytes 12 g).0 ≡ 12
      → c.aes.encrypt (c.aes.new k.bytes) (c.rand.fill_bytes 12 g).0 aad m ≡ some ct
      → let (nonce, g') = c.rand.fill_bytes 12 g in
        encrypt_vault c m k aad g ≡ (ok (record { nonce = nonce; ciphertext = ct }), g')
  unfolding encrypt_vault VaultKey.expose
  encrypt_vault_lem m aad k g hk hn e = ground arith

  -- With an AES-GCM and a generator that behave as documented, a key of 32 bytes, and a plaintext
  -- and associated data of at most 2 ^ 32 bytes each: encryption succeeds, the blob has a nonce of
  -- 12 bytes and a ciphertext that is 16 bytes longer than the plaintext, and it decrypts with that
  -- key and associated data to the plaintext.
  pub encrypt_vault_total :
      (m aad : Bytes) (k : VaultKey) (g : Rng c)
      → IsAead c.aes
      → IsFilling c.rand
      → IsVaultKey k
      → length m ≤ 2 ^ 32
      → length aad ≤ 2 ^ 32
      → (b : EncryptedBlob) × (g' : Rng c) × (encrypt_vault c m k aad g ≡ (ok b, g'))
        × IsBlob b
        × (length b.ciphertext ≡ length m + 16)
        × (decrypt_vault c b k aad ≡ ok m)
  encrypt_vault_total m aad k g a f hk hm ha =
      let (nonce, g') = c.rand.fill_bytes 12 g in
      let hn : length nonce ≡ 12 = f.length-fill_bytes 12 g in
      let (ct, e) = a.encrypt_ok (c.aes.new k.bytes) nonce aad m ha hm in
      let b : EncryptedBlob = record { nonce = nonce; ciphertext = ct } in
      (
        b,
        g',
        encrypt_vault_lem m aad k g hk hn e,
        hn,
        a.length-encrypt _ nonce aad m ct e,
        (decrypt_vault-eq_ok_iff b k aad m a hk hn).1 e,
      )

  -- One ciphertext that the cipher gives under one key and nonce for two different associated
  -- data: a forgery.
  abbrev pub AadForgery : VaultKey → EncryptedBlob → Type 0
  AadForgery k b =
      (aad : Bytes) × (aad' : Bytes) × (m : Bytes) × (m' : Bytes) × (aad ≢ aad')
      × (c.aes.encrypt (c.aes.new k.bytes) b.nonce aad m ≡ some b.ciphertext)
      × (c.aes.encrypt (c.aes.new k.bytes) b.nonce aad' m' ≡ some b.ciphertext)

  -- With an AES-GCM that behaves as documented: if a blob that was sealed for one vault id and
  -- version opens, under the same key, for another pair of a vault id and a version, both versions
  -- below 2 ^ 32, then it is a forgery: one ciphertext that the cipher gives, under that key and
  -- nonce, for two different associated data.
  pub replay-AadForgery :
      (m m' : Bytes) (id id' : Text) (v v' : ℕ) (k : VaultKey) (g : Rng c) {b : EncryptedBlob}
      {g' : Rng c}
      → IsAead c.aes
      → v < 2 ^ 32
      → v' < 2 ^ 32
      → ¬ ((id ≡ id') × (v ≡ v'))
      → encrypt_vault c m k (vault_aad id v) g ≡ (ok b, g')
      → decrypt_vault c b k (vault_aad id' v') ≡ ok m'
      → AadForgery k b
  replay-AadForgery m m' id id' v v' k g {b} a hv hv' other sealed opened =
      let (hk, hb, e) = encrypt_vault-eq_ok m (vault_aad id v) k g sealed in
      (
        vault_aad id v,
        vault_aad id' v',
        m,
        m',
        λ p. other (vault_aad-injective id id' v v' hv hv' p),
        e,
        (decrypt_vault-eq_ok_iff b k (vault_aad id' v') m' a hk hb).0 opened,
      )
