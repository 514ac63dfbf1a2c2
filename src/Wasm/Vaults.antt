-- ===== src/Wasm/Vaults.antt =====
-- The bindings of src/wasm.rs for blobs, and the self-test.
use evnx_crypto.Base.Bytes.{Bytes, Text, bytes_eq_refl}
use evnx_crypto.Base.Outcome.{ok, err, panic}
use evnx_crypto.Base.{
  ℕ, ◌+◌, ◌%◌, ◌^◌, ◌≤◌, ◌<◌, ◌≡◌, ◌≢◌, ◌⊎◌, inl, inr, some, ◌++◌, true, false, length,
  length-append, length-take, take, drop, take-append, drop-append, arith, lt→ltb,
}
use evnx_crypto.Crates.Random.{IsFilling}
use evnx_crypto.Crates.Sealing.{IsAead}
use evnx_crypto.Crates.{Crates, Rng}
use evnx_crypto.Errors.{decryption}
use evnx_crypto.Vault.Aad.{length-vault_aad, vault_aad-injective}
use evnx_crypto.Vault.Blob.{decrypt_vault_cases, decrypt_vault-eq_ok_iff, encrypt_vault_total}
use evnx_crypto.Vault.Identity.{vault_aad}
use evnx_crypto.Vault.Open
use evnx_crypto.Vault.Open.{EncryptedBlob, IsBlob}
use evnx_crypto.Vault.Seal
use evnx_crypto.Vault.VaultKey
use evnx_crypto.Vault.VaultKey.{VaultKey, IsVaultKey}
use evnx_crypto.Wasm.Calls.{decrypt_vault}
use evnx_crypto.Wasm.Draws.{encrypt_vault, aad_self_test, is_err, self_test_plaintext}
use evnx_crypto.Wasm.Handles.{VaultKeyHandle}
use native.Mathlib.Decide.{dec_lt}

module _ (c : Crates) where
  -- The binding opens `nonce || ciphertext` as the library opens the blob of these two.
  decrypt_vault_lem :
      (b : EncryptedBlob) (vk : VaultKeyHandle) (id : Text) (v : ℕ) {m : Bytes}
      → IsBlob b
      → Open.decrypt_vault c b vk.inner (vault_aad id v) ≡ ok m
      → decrypt_vault c (b.nonce ++ b.ciphertext) vk id v ≡ ok m
  unfolding decrypt_vault
  decrypt_vault_lem b vk id v hb e = ground (
    arith,
    length-append b.nonce b.ciphertext,
    take-append 12 b.nonce b.ciphertext hb,
    drop-append 12 b.nonce b.ciphertext hb,
  )

  -- With an AES-GCM and a generator that behave as documented, a key of 32 bytes, a plaintext of at
  -- most 2 ^ 32 bytes and a vault id below 2 ^ 31: what the browser encrypts for a vault id and a
  -- version is 28 bytes longer than the plaintext, and the browser decrypts it at that id and
  -- version to the plaintext.
  pub browser_round_trip :
      (m : Bytes) (vk : VaultKeyHandle) (id : Text) (v : ℕ) (g : Rng c)
      → IsAead c.aes
      → IsFilling c.rand
      → IsVaultKey vk.inner
      → length m ≤ 2 ^ 32
      → length id < 2 ^ 31
      → (blob : Bytes) × (g' : Rng c) × (encrypt_vault c m vk id v g ≡ (ok blob, g'))
        × (length blob ≡ length m + 28)
        × (decrypt_vault c blob vk id v ≡ ok m)
  unfolding encrypt_vault
  browser_round_trip m vk id v g a f hk hm hid =
      let aad = vault_aad id v in
      let (b, g', e, hb, n, opened) =
        encrypt_vault_total c m aad vk.inner g a f hk hm (omega (arith, length-vault_aad id v)) in
      (
        b.nonce ++ b.ciphertext,
        g',
        ground (arith, e),
        omega (arith, length-append b.nonce b.ciphertext),
        decrypt_vault_lem b vk id v hb opened,
      )

  decrypt_vault_long :
      (blob : Bytes) (vk : VaultKeyHandle) (id : Text) (v : ℕ)
      → 12 ≤ length blob
      → IsVaultKey vk.inner
      → decrypt_vault c blob vk id v ≢ panic
  unfolding decrypt_vault
  decrypt_vault_long blob vk id v long hk h =
      let b : EncryptedBlob = record { nonce = take 12 blob; ciphertext = drop 12 blob } in
      let hb : length (take 12 blob) ≡ 12 = omega (arith, length-take 12 blob) in
      elim (decrypt_vault_cases c b vk.inner (vault_aad id v) hk hb) [
        | inl (m, e) ↦ ground (arith, e)
        | inr e ↦ ground (arith, e)
      ]

  pub decrypt_vault_short :
      (blob : Bytes) (vk : VaultKeyHandle) (id : Text) (v : ℕ)
      → length blob < 12
      → decrypt_vault c blob vk id v ≡ err (record { message = "blob shorter than a nonce" })
  unfolding decrypt_vault
  decrypt_vault_short blob vk id v short = rw (lt→ltb (length blob) 12 short)

  -- With a key of 32 bytes, the browser's decryption does not panic, whatever bytes arrive as the
  -- blob.
  pub browser_decrypt_no_panic :
      (blob : Bytes) (vk : VaultKeyHandle) (id : Text) (v : ℕ)
      → IsVaultKey vk.inner
      → decrypt_vault c blob vk id v ≢ panic
  browser_decrypt_no_panic blob vk id v hk h = elim (dec_lt (length blob) 12) [
    | yes short ↦ cc (decrypt_vault_short blob vk id v short)
    | no long ↦ decrypt_vault_long blob vk id v (omega arith) hk h
  ]

  next_version_differs : (id : Text) (v : ℕ) → v < 2 ^ 32 → ¬ ((id ≡ id) × (v ≡ (v + 1) % 2 ^ 32))
  next_version_differs id v h (_, e) = omega arith

  self_test_lem :
      (id : Text) (v : ℕ) (g : Rng c) {b : EncryptedBlob} {g' : Rng c}
      → Seal.encrypt_vault c self_test_plaintext
          (VaultKey.generate c g).0
          (vault_aad id v)
          (VaultKey.generate c g).1
        ≡ (ok b, g')
      → Open.decrypt_vault c b (VaultKey.generate c g).0 (vault_aad id v) ≡ ok self_test_plaintext
      → aad_self_test c id v g ≡ (
        is_err (Open.decrypt_vault c b (VaultKey.generate c g).0 (vault_aad id ((v + 1) % 2 ^ 32))),
        g',
      )
  unfolding aad_self_test
  self_test_lem id v g e opened = ground (arith, bytes_eq_refl self_test_plaintext)

  generate-IsVaultKey : (g : Rng c) → IsFilling c.rand → IsVaultKey (VaultKey.generate c g).0
  unfolding VaultKey.generate
  generate-IsVaultKey g f = f.length-fill_bytes 32 g

  abbrev pub next_aad : Text → ℕ → Bytes
  next_aad id v = vault_aad id ((v + 1) % 2 ^ 32)

  -- The cipher gives the blob's ciphertext for the next version's associated data too, which are
  -- other ones than those of this version.
  abbrev pub OpensAsNext : VaultKey → EncryptedBlob → Text → ℕ → Type 0
  OpensAsNext k b id v =
      (m : Bytes) × (vault_aad id v ≢ next_aad id v)
      × (c.aes.encrypt (c.aes.new k.bytes) b.nonce (next_aad id v) m ≡ some b.ciphertext)

  -- With an AES-GCM and a generator that behave as documented, a version below 2 ^ 32, the last one
  -- included, and a vault id below 2 ^ 31 bytes: the self-test seals its plaintext for the id and
  -- the version under the key it draws, and it answers `true`, where this blob does not open for
  -- the next version; or it answers `false`, where the cipher gives the ciphertext of this very
  -- blob, under the drawn key and its nonce, for the associated data of the next version too, which
  -- differ from those of this one.
  pub aad_self_test_passes :
      (id : Text) (v : ℕ) (g : Rng c)
      → IsAead c.aes
      → IsFilling c.rand
      → v < 2 ^ 32
      → length id < 2 ^ 31
      → let (k, g1) = VaultKey.generate c g in
        (b : EncryptedBlob) × (g' : Rng c) × (Seal.encrypt_vault c self_test_plaintext k
            (vault_aad id v)
            g1
          ≡ (ok b, g'))
        × (((aad_self_test c id v g ≡ (ok true, g'))
              × (Open.decrypt_vault c b k (next_aad id v) ≡ err decryption))
            ⊎ ((aad_self_test c id v g ≡ (ok false, g')) × OpensAsNext k b id v))
  aad_self_test_passes id v g a f hv hid =
      let (k, g1) = VaultKey.generate c g in
      let hk = generate-IsVaultKey g f in
      let (b, g', e, hb, _, opened) =
        encrypt_vault_total c self_test_plaintext (vault_aad id v) k g1 a f hk (omega arith)
          (omega (arith, length-vault_aad id v)) in
      let run = self_test_lem id v g e opened in
      (
        b,
        g',
        e,
        elim (decrypt_vault_cases c b k (next_aad id v) hk hb) [
          | inr refused ↦ inl (rw refused at run, refused)
          | inl (m, accepted) ↦ inr (
            rw accepted at run,
            (
              m,
              λ p.
                  next_version_differs id v hv
                    (vault_aad-injective id id v ((v + 1) % 2 ^ 32) hv (omega arith) p),
              (decrypt_vault-eq_ok_iff c b k (next_aad id v) m a hk hb).0 accepted,
            ),
          )
        ],
      )
