-- ===== src/Wasm/Machine/Exports/Vaults.antt =====
-- The exports of src/wasm.rs for vault keys and blobs.
use evnx_crypto.Base.Bytes.{Bytes, Text, bytes_eq}
use evnx_crypto.Base.Outcome.{
  ok, err, panic, map_err, Any, Safe, Safe-live, Safe-bind, Safe-map_err,
}
use evnx_crypto.Base.{
  ℕ, ◌≡◌, length-take, arith, inl, inr, Bool, true, false, if◌then◌else◌, ◌+◌, ◌%◌, ◌^◌,
}
use evnx_crypto.Crates.Random.{
  Random, ◌>>=◌, IsFilling, Safe-bind_random, lift, map_err as map_err_random,
}
use evnx_crypto.Crates.{Crates, Rng}
use evnx_crypto.Errors.{Result}
use evnx_crypto.Kdf.MasterKey.{MasterKey}
use evnx_crypto.Kdf.{hkdf_subkey}
use evnx_crypto.Vault.Blob.{decrypt_vault_cases}
use evnx_crypto.Vault.Identity.{vault_aad}
use evnx_crypto.Vault.Open
use evnx_crypto.Vault.Open.{EncryptedBlob, IsBlob}
use evnx_crypto.Vault.Seal
use evnx_crypto.Vault.VaultKey
use evnx_crypto.Vault.VaultKey.{VaultKey, IsVaultKey}
use evnx_crypto.Wasm.Calls.{unwrap_vault_key, decrypt_vault}
use evnx_crypto.Wasm.Draws.{
  wrap_vault_key, encrypt_vault, aad_self_test, is_err, self_test_plaintext,
}
use evnx_crypto.Wasm.Handles.{js, JsError, JsResult, MasterKeyHandle, VaultKeyHandle}
use evnx_crypto.Wasm.Vaults.{browser_decrypt_no_panic}

module _ (c : Crates) where
  wrap_live :
      (vk : VaultKeyHandle) (mk : MasterKeyHandle) (g : Rng c)
      → IsFilling c.rand
      → ¬ ((wrap_vault_key c vk mk g).0 ≡ panic)
  unfolding wrap_vault_key Seal.wrap_vault_key_with_master_key hkdf_subkey
  wrap_live vk mk g f = ground (arith, f.length-fill_bytes 24 g)

  pub wrap_vault_key-Safe :
      (vk : VaultKeyHandle) (mk : MasterKeyHandle) (g : Rng c)
      → IsFilling c.rand
      → Safe Any (wrap_vault_key c vk mk g).0
  wrap_vault_key-Safe vk mk g f = Safe-live (wrap_vault_key c vk mk g).0 (wrap_live vk mk g f)

  unwrap_lem :
      (w : Bytes) (mk : MasterKey) → Safe IsVaultKey (Open.unwrap_vault_key_with_master_key c w mk)
  unfolding Open.unwrap_vault_key_with_master_key hkdf_subkey VaultKey.from_bytes
  unwrap_lem w mk = ground (arith, length-take 24 w)

  pub unwrap_vault_key-Safe :
      (w : Bytes) (mk : MasterKeyHandle) → Safe (λ k. IsVaultKey k.inner) (unwrap_vault_key c w mk)
  unfolding unwrap_vault_key
  unwrap_vault_key-Safe w mk =
      Safe-bind IsVaultKey (λ k. IsVaultKey k.inner)
        (map_err js (Open.unwrap_vault_key_with_master_key c w mk.inner)) _
        (Safe-map_err IsVaultKey js (Open.unwrap_vault_key_with_master_key c w mk.inner)
          (unwrap_lem w mk.inner))
        (λ k n. n)

  seal_lem :
      (m aad : Bytes) (k : VaultKey) (g : Rng c)
      → IsFilling c.rand
      → IsVaultKey k
      → Safe IsBlob (Seal.encrypt_vault c m k aad g).0
  unfolding Seal.encrypt_vault VaultKey.expose
  seal_lem m aad k g f hk = ground (arith, f.length-fill_bytes 12 g)

  encrypt_live :
      (m : Bytes) (vk : VaultKeyHandle) (id : Text) (v : ℕ) (g : Rng c)
      → IsFilling c.rand
      → IsVaultKey vk.inner
      → ¬ ((encrypt_vault c m vk id v g).0 ≡ panic)
  unfolding encrypt_vault Seal.encrypt_vault VaultKey.expose
  encrypt_live m vk id v g f hk = ground (arith, f.length-fill_bytes 12 g)

  pub encrypt_vault-Safe :
      (m : Bytes) (vk : VaultKeyHandle) (id : Text) (v : ℕ) (g : Rng c)
      → IsFilling c.rand
      → IsVaultKey vk.inner
      → Safe Any (encrypt_vault c m vk id v g).0
  encrypt_vault-Safe m vk id v g f hk =
      Safe-live (encrypt_vault c m vk id v g).0 (encrypt_live m vk id v g f hk)

  pub decrypt_vault-Safe :
      (blob : Bytes) (vk : VaultKeyHandle) (id : Text) (v : ℕ)
      → IsVaultKey vk.inner
      → Safe Any (decrypt_vault c blob vk id v)
  decrypt_vault-Safe blob vk id v hk =
      Safe-live (decrypt_vault c blob vk id v) (browser_decrypt_no_panic c blob vk id v hk)

  generate-IsVaultKey : (g : Rng c) → IsFilling c.rand → IsVaultKey (VaultKey.generate c g).0
  unfolding VaultKey.generate
  generate-IsVaultKey g f = f.length-fill_bytes 32 g

  refused-Safe :
      (b : EncryptedBlob) (k : VaultKey) (aad : Bytes)
      → IsVaultKey k
      → IsBlob b
      → Safe Any (Open.decrypt_vault c b k aad)
  refused-Safe b k aad hk hb = elim (decrypt_vault_cases c b k aad hk hb) [
    | inl (m, e) ↦ rw e tt
    | inr e ↦ rw e tt
  ]

  is_err-Safe : (r : Result Bytes) → Safe Any r → Safe Any (is_err {F = JsError} r)
  is_err-Safe (ok m) h = tt
  is_err-Safe (err e) h = tt
  is_err-Safe panic h = h

  verdict-Safe :
      (same : Bool) (r : JsResult Bool) (g : Rng c)
      → Safe Any r
      → Safe Any ((if same then lift r else lift (ok false)) g).0
  verdict-Safe true r g h = h
  verdict-Safe false r g h = tt

  -- The two later steps of the self-test.
  abbrev judge : EncryptedBlob → VaultKey → Text → ℕ → Bytes → Random (Rng c) JsError Bool
  judge b k id v opened =
      if bytes_eq opened self_test_plaintext
      then lift (is_err (Open.decrypt_vault c b k (vault_aad id ((v + 1) % 2 ^ 32))))
      else lift (ok false)

  abbrev reopen : VaultKey → Text → ℕ → EncryptedBlob → Random (Rng c) JsError Bool
  reopen k id v b = lift (map_err js (Open.decrypt_vault c b k (vault_aad id v))) >>= judge b k id v

  reopen-Safe :
      (k : VaultKey) (id : Text) (v : ℕ) (b : EncryptedBlob) (g : Rng c)
      → IsVaultKey k
      → IsBlob b
      → Safe Any (reopen k id v b g).0
  reopen-Safe k id v b g hk hb =
      let wrong = Open.decrypt_vault c b k (vault_aad id ((v + 1) % 2 ^ 32)) in
      Safe-bind_random Any Any (lift (map_err js (Open.decrypt_vault c b k (vault_aad id v))))
        (judge b k id v) g
        (Safe-map_err Any js (Open.decrypt_vault c b k (vault_aad id v))
          (refused-Safe b k (vault_aad id v) hk hb))
        (λ m g' _.
          verdict-Safe (bytes_eq m self_test_plaintext) (is_err wrong) g'
            (is_err-Safe wrong (refused-Safe b k (vault_aad id ((v + 1) % 2 ^ 32)) hk hb)))

  pub aad_self_test-Safe :
      (id : Text) (v : ℕ) (g : Rng c) → IsFilling c.rand → Safe Any (aad_self_test c id v g).0
  unfolding aad_self_test
  aad_self_test-Safe id v g f =
      let (k, g1) = VaultKey.generate c g in
      let hk = generate-IsVaultKey g f in
      let seal = Seal.encrypt_vault c self_test_plaintext k (vault_aad id v) in
      Safe-bind_random IsBlob Any (map_err_random js seal) (reopen k id v) g1
        (Safe-map_err IsBlob js (seal g1).0
          (seal_lem self_test_plaintext (vault_aad id v) k g1 f hk))
        (λ b g2 hb. reopen-Safe k id v b g2 hk hb)
