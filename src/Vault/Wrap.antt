-- ===== src/Vault/Wrap.antt =====
-- `wrap_vault_key_with_master_key` and its inverse, of src/vault.rs, against each other.
use evnx_crypto.Base.{
  ◌+◌, ◌<◌, ◌≤◌, ◌≡◌, ◌≢◌, ◌⊎◌, inl, inr, some, none, [], ◌++◌, length, length-append, length-take,
  length-drop, take, drop, take-append, drop-append, arith, Option-cases, if◌then◌else◌, ◌==◌,
}
use native.Mathlib.Decide.{dec_lt}
use evnx_crypto.Base.Bytes.{Bytes}
use evnx_crypto.Base.Outcome.{ok, err}
use evnx_crypto.Crates.{Crates, Rng}
use evnx_crypto.Crates.Kdf.{IsHkdf}
use evnx_crypto.Crates.Random.{IsFilling}
use evnx_crypto.Crates.Sealing.{IsAead}
use evnx_crypto.Errors.{invalid_input, key_unwrap}
use evnx_crypto.Kdf.Derivation.{hkdf_subkey_total}
use evnx_crypto.Kdf.{hkdf_subkey}
use evnx_crypto.Kdf.MasterKey
use evnx_crypto.Kdf.MasterKey.{MasterKey}
use evnx_crypto.Vault.Open.{hkdf_info_vault_key_wrap_mk, unwrap_vault_key_with_master_key}
use evnx_crypto.Vault.Seal.{wrap_vault_key_with_master_key}
use evnx_crypto.Vault.VaultKey
use evnx_crypto.Vault.VaultKey.{VaultKey, IsVaultKey}
use evnx_crypto.Zeroize.SecretArray

module _ (c : Crates) where
  -- The cipher of the master key's wrapping subkey.
  abbrev pub IsWrapCipher : MasterKey → c.xchacha.Cipher → Type 0
  IsWrapCipher mk k =
      (subkey : Bytes) × (c.hkdf.expand (c.hkdf.extract mk.bytes) hkdf_info_vault_key_wrap_mk 32
        ≡ some subkey)
      × (c.xchacha.new_from_slice subkey ≡ some k)

  IsWrapCipher-total :
      (mk : MasterKey)
      → IsHkdf c.hkdf
      → IsAead c.xchacha
      → (k : c.xchacha.Cipher) × IsWrapCipher mk k
  IsWrapCipher-total mk h a =
      let (s, _, n, e) = hkdf_subkey_total c mk.bytes hkdf_info_vault_key_wrap_mk h in
      let (k, ek) = a.new_from_slice_ok (SecretArray.expose s) n in
      (k, (SecretArray.expose s, e, ek))

  module _ (mk : MasterKey) (k : c.xchacha.Cipher) (derived : IsWrapCipher mk k) where
    wrap_lem :
        (vk : VaultKey) (g : Rng c) {ct : Bytes}
        → length (c.rand.fill_bytes 24 g).0 ≡ 24
        → c.xchacha.encrypt k (c.rand.fill_bytes 24 g).0 [] vk.bytes ≡ some ct
        → let (nonce, g') = c.rand.fill_bytes 24 g in
          wrap_vault_key_with_master_key c vk mk g ≡ (ok (nonce ++ ct), g')
    unfolding wrap_vault_key_with_master_key hkdf_subkey MasterKey.expose VaultKey.expose
        SecretArray.expose
    wrap_lem vk g hn e = ground (arith, derived)

    unwrap_short :
        (w : Bytes)
        → length w < 56
        → unwrap_vault_key_with_master_key c w mk ≡ err (invalid_input "wrapped key too short")
    unfolding unwrap_vault_key_with_master_key
    unwrap_short w h = ground arith

    unwrap_rejected :
        (w : Bytes)
        → 56 ≤ length w
        → c.xchacha.decrypt k (take 24 w) [] (drop 24 w) ≡ none
        → unwrap_vault_key_with_master_key c w mk ≡ err key_unwrap
    unfolding unwrap_vault_key_with_master_key hkdf_subkey MasterKey.expose SecretArray.expose
    unwrap_rejected w h e = ground (arith, derived, length-take 24 w)

    unwrap_opened :
        (w : Bytes) {p : Bytes}
        → 56 ≤ length w
        → c.xchacha.decrypt k (take 24 w) [] (drop 24 w) ≡ some p
        → unwrap_vault_key_with_master_key c w mk ≡ (
            if length p == 32
            then ok (record { bytes = p })
            else err (invalid_input "decrypted key wrong length"))
    unfolding unwrap_vault_key_with_master_key hkdf_subkey MasterKey.expose SecretArray.expose
        VaultKey.from_bytes
    unwrap_opened w h e = ground (arith, derived, length-take 24 w)

  -- With crates that behave as documented and a vault key of 32 bytes: wrapping it under a master
  -- key succeeds with 72 bytes, and unwrapping these under the same master key gives the vault key
  -- back.
  pub wrap_then_unwrap :
      (vk : VaultKey) (mk : MasterKey) (g : Rng c)
      → IsAead c.xchacha
      → IsHkdf c.hkdf
      → IsFilling c.rand
      → IsVaultKey vk
      → (w : Bytes) × (g' : Rng c) × (wrap_vault_key_with_master_key c vk mk g ≡ (ok w, g'))
        × (length w ≡ 72)
        × (unwrap_vault_key_with_master_key c w mk ≡ ok vk)
  wrap_then_unwrap vk mk g a h f hk =
      let (k, derived) = IsWrapCipher-total mk h a in
      let (nonce, g') = c.rand.fill_bytes 24 g in
      let hn : length nonce ≡ 24 = f.length-fill_bytes 24 g in
      let (ct, e) = a.encrypt_ok k nonce [] vk.bytes (omega arith) (omega arith) in
      let n : length ct ≡ length vk.bytes + 16 = a.length-encrypt k nonce [] vk.bytes ct e in
      let size : length (nonce ++ ct) ≡ 72 = omega (arith, length-append nonce ct) in
      let opened : c.xchacha.decrypt k (take 24 (nonce ++ ct)) [] (drop 24 (nonce ++ ct))
          ≡ some vk.bytes =
        rw (take-append 24 nonce ct hn, drop-append 24 nonce ct hn)
          (a.decrypt-encrypt k nonce [] vk.bytes ct e) in
      (
        nonce ++ ct,
        g',
        wrap_lem mk k derived vk g hn e,
        size,
        ground (arith, unwrap_opened mk k derived (nonce ++ ct) (omega arith) opened),
      )

  -- With an XChaCha20-Poly1305 and an HKDF that behave as documented: where an input unwraps under
  -- a master key to a vault key, the vault key has 32 bytes, the input has 72, and it is a nonce
  -- followed by the encryption of that vault key under the wrapping subkey of that master key.
  pub unwrap_accepts_wraps :
      (w : Bytes) (mk : MasterKey) {vk : VaultKey}
      → IsAead c.xchacha
      → IsHkdf c.hkdf
      → unwrap_vault_key_with_master_key c w mk ≡ ok vk
      → IsVaultKey vk
        × (length w ≡ 72)
        × (k : c.xchacha.Cipher) × IsWrapCipher mk k
        × (c.xchacha.encrypt k (take 24 w) [] vk.bytes ≡ some (drop 24 w))
  unwrap_accepts_wraps w mk {vk} a h e =
      let (k, derived) = IsWrapCipher-total mk h a in
      elim (Option-cases (c.xchacha.decrypt k (take 24 w) [] (drop 24 w))) [
        | inl refused ↦ ground (arith, unwrap_short mk k derived w, unwrap_rejected mk k derived w)
        | inr (p, opened) ↦
            let long : 56 ≤ length w = ground (arith, unwrap_short mk k derived w) in
            let same : vk.bytes ≡ p = ground (arith, unwrap_opened mk k derived w long opened) in
            let n : length p ≡ 32 = ground (arith, unwrap_opened mk k derived w long opened) in
            let sealed = a.encrypt-decrypt k (take 24 w) [] (drop 24 w) p opened in
            (
              rw same n,
              omega
                  (arith, length-drop 24 w, a.length-encrypt k (take 24 w) [] p (drop 24 w) sealed),
              k,
              derived,
              rw same sealed,
            )
      ]

  -- With an XChaCha20-Poly1305 and an HKDF that behave as documented: an input that does not have
  -- 72 bytes is refused with an error and without a panic. Below 56 bytes it is refused as too
  -- short; from 56 on it is refused by the cipher, or because the opened key does not have 32
  -- bytes.
  pub unwrap_other_length :
      (w : Bytes) (mk : MasterKey)
      → IsAead c.xchacha
      → IsHkdf c.hkdf
      → length w ≢ 72
      → ((length w < 56)
          × (unwrap_vault_key_with_master_key c w mk ≡ err (invalid_input "wrapped key too short")))
        ⊎ ((56 ≤ length w) × (unwrap_vault_key_with_master_key c w mk ≡ err key_unwrap))
        ⊎ ((56 ≤ length w)
            × (unwrap_vault_key_with_master_key c w mk
                ≡ err (invalid_input "decrypted key wrong length")))
  unwrap_other_length w mk a h other =
      let (k, derived) = IsWrapCipher-total mk h a in
      elim (dec_lt (length w) 56) [
        | yes short ↦ inl (short, unwrap_short mk k derived w short)
        | no long ↦ elim (Option-cases (c.xchacha.decrypt k (take 24 w) [] (drop 24 w))) [
          | inl refused ↦
              inr (inl (omega arith, unwrap_rejected mk k derived w (omega arith) refused))
          | inr (p, opened) ↦
              let n =
                a.length-encrypt k (take 24 w) [] p (drop 24 w)
                  (a.encrypt-decrypt k (take 24 w) [] (drop 24 w) p opened) in
              let wrong : length p ≢ 32 = omega (arith, n, length-drop 24 w) in
              inr (
                inr
                  (omega arith, ground (arith, unwrap_opened mk k derived w (omega arith) opened)))
        ]
      ]
