-- ===== src/Keypair/Laws/Acceptance.antt =====
-- `unwrap_vault_key` of src/keypair.rs on every input.
use evnx_crypto.Base.{
  ◌≤◌, ◌≡◌, ◌≢◌, ◌⊎◌, true, false, some, [], length, length-drop, take, drop, arith, Option-cases,
  Bool-cases, inl, inr, sym, ◌∙◌,
}
use native.Mathlib.Decide.{dec_lt, ℕ_discrete}
use evnx_crypto.Base.Bytes.{Bytes}
use mathlib.Core.Path.{subst}
use evnx_crypto.Base.Outcome.{ok, err, panic, ok_injective}
use evnx_crypto.Crates.{Crates}
use evnx_crypto.Crates.Kdf.{IsHkdf}
use evnx_crypto.Crates.Kem.{IsMlKem}
use evnx_crypto.Crates.Sealing.{IsAead}
use evnx_crypto.Errors.{CryptoError, invalid_input, invalid_public_key, key_unwrap}
use evnx_crypto.Keypair.Laws.Kem.{mlkem_decapsulate_total}
use evnx_crypto.Keypair.Laws.Refusal.{unwrap_without_kem, unwrap_too_short}
use evnx_crypto.Keypair.Laws.Share.{IsHybridCipher, IsHybridCipher-total, static_secret, unwrap_lem}
use evnx_crypto.Keypair.Types.{UserKeypair, WrappedVaultKey}
use evnx_crypto.Keypair.Unwrap.{mlkem_decapsulate, unwrap_vault_key}
use evnx_crypto.Vault.VaultKey.{VaultKey, IsVaultKey}

module _ (c : Crates) where
  -- What a wrap must be for the keypair to open it to the key.
  pub record IsWrapFor (w : WrappedVaultKey) (kp : UserKeypair c) (vk : VaultKey) : Type 0 where
    pub key_length : IsVaultKey vk
    pub contributory : c.x25519.was_contributory (static_secret c kp w.eph_pub_key) ≡ true
    pub secret : Bytes
    pub decapsulated : mlkem_decapsulate c kp w.mlkem_ciphertext ≡ ok secret
    pub cipher : c.xchacha.Cipher
    pub derived :
        IsHybridCipher c secret
          (c.x25519.as_bytes (static_secret c kp w.eph_pub_key))
          w.mlkem_ciphertext
          w.eph_pub_key
          kp.x25519_public.bytes
          cipher
    pub size : length w.encrypted_vault_key ≡ 72
    pub sealed :
        c.xchacha.encrypt cipher (take 24 w.encrypted_vault_key) [] vk.bytes
        ≡ some (drop 24 w.encrypted_vault_key)

  abbrev Outcomes : WrappedVaultKey → UserKeypair c → Type 0
  Outcomes w kp =
      ((e : CryptoError) × (unwrap_vault_key c w kp ≡ err e))
      ⊎ ((vk : VaultKey) × (unwrap_vault_key c w kp ≡ ok vk) × IsWrapFor w kp vk)

  module _ (w : WrappedVaultKey) (kp : UserKeypair c) (a : IsAead c.xchacha) where
    outcome_of_cipher :
        {ss : Bytes} {k : c.xchacha.Cipher}
        → c.x25519.was_contributory (static_secret c kp w.eph_pub_key) ≡ true
        → mlkem_decapsulate c kp w.mlkem_ciphertext ≡ ok ss
        → IsHybridCipher c ss
            (c.x25519.as_bytes (static_secret c kp w.eph_pub_key))
            w.mlkem_ciphertext
            w.eph_pub_key
            kp.x25519_public.bytes
            k
        → 24 ≤ length w.encrypted_vault_key
        → Outcomes w kp
    outcome_of_cipher {ss} {k} con dec derived long =
        let nonce = take 24 w.encrypted_vault_key in
        let ct = drop 24 w.encrypted_vault_key in
        let result = unwrap_lem c w kp con dec derived long in
        elim (Option-cases (c.xchacha.decrypt k nonce [] ct)) [
          | inl refused ↦ inl (key_unwrap, rw refused at result)
          | inr (p, found) ↦ elim (ℕ_discrete (length p) 32) [
            | no wrong ↦
                inl (invalid_input "decrypted vault key wrong length", ground (arith, result))
            | yes n ↦
                let e = a.encrypt-decrypt k nonce [] ct p found in
                inr (
                  record { bytes = p },
                  ground (arith, result),
                  record {
                    key_length = n;
                    contributory = con;
                    secret = ss;
                    decapsulated = dec;
                    cipher = k;
                    derived = derived;
                    size = omega (
                      arith,
                      a.length-encrypt k nonce [] p ct e,
                      length-drop 24 w.encrypted_vault_key,
                    );
                    sealed = e;
                  },
                )
          ]
        ]

    outcome_of_secrets :
        {ss : Bytes}
        → IsHkdf c.hkdf
        → c.x25519.was_contributory (static_secret c kp w.eph_pub_key) ≡ true
        → mlkem_decapsulate c kp w.mlkem_ciphertext ≡ ok ss
        → Outcomes w kp
    outcome_of_secrets {ss} h con dec =
        let shared = c.x25519.as_bytes (static_secret c kp w.eph_pub_key) in
        let (k, derived) =
          IsHybridCipher-total c ss shared w.mlkem_ciphertext w.eph_pub_key kp.x25519_public.bytes h
            a in
        elim (dec_lt (length w.encrypted_vault_key) 24) [
          | yes short ↦ inl (
            invalid_input "wrapped vault key too short",
            unwrap_too_short c w kp con dec derived short,
          )
          | no long ↦ outcome_of_cipher con dec derived (omega arith)
        ]

    unwrap_refused_key :
        c.x25519.was_contributory (static_secret c kp w.eph_pub_key) ≡ false
        → unwrap_vault_key c w kp ≡ err invalid_public_key
    unfolding unwrap_vault_key
    unwrap_refused_key z = ground arith

    unwrap-Outcomes : IsHkdf c.hkdf → IsMlKem c.mlkem → Outcomes w kp
    unwrap-Outcomes h m =
        elim (Bool-cases (c.x25519.was_contributory (static_secret c kp w.eph_pub_key))) [
          | inr z ↦ inl (invalid_public_key, unwrap_refused_key z)
          | inl con ↦ elim (ℕ_discrete (length w.mlkem_ciphertext) 1088) [
            | no n ↦ inl (_, unwrap_without_kem c w kp m con n)
            | yes n ↦
                let (ss, dec, _) = mlkem_decapsulate_total c kp w.mlkem_ciphertext m n in
                outcome_of_secrets h con dec
          ]
        ]

  -- With an XChaCha20-Poly1305, an HKDF and an ML-KEM that behave as documented: where unwrapping
  -- gives a vault key, the key has 32 bytes, the shared secret with the ephemeral key is
  -- contributory, the ML-KEM ciphertext decapsulates, and the sealed key has 72 bytes and is a
  -- nonce followed by the encryption of that vault key under the cipher that is derived from both
  -- secrets, the ML-KEM ciphertext, the ephemeral key and the owner's own public key.
  pub unwrap-IsWrapFor :
      (w : WrappedVaultKey) (kp : UserKeypair c) {vk : VaultKey}
      → IsAead c.xchacha
      → IsHkdf c.hkdf
      → IsMlKem c.mlkem
      → unwrap_vault_key c w kp ≡ ok vk
      → IsWrapFor w kp vk
  unwrap-IsWrapFor w kp a h m e = elim (unwrap-Outcomes w kp a h m) [
    | inl (_, refused) ↦ cc
    | inr (vk', accepted, wrapped) ↦
        subst (λ v. IsWrapFor w kp v) (ok_injective (sym accepted ∙ e)) wrapped
  ]

  -- With an XChaCha20-Poly1305, an HKDF and an ML-KEM that behave as documented, unwrapping a
  -- shared vault key does not panic, whatever the wrap holds.
  pub unwrap_no_panic :
      (w : WrappedVaultKey) (kp : UserKeypair c)
      → IsAead c.xchacha
      → IsHkdf c.hkdf
      → IsMlKem c.mlkem
      → unwrap_vault_key c w kp ≢ panic
  unwrap_no_panic w kp a h m e = elim (unwrap-Outcomes w kp a h m) [
    | inl (_, refused) ↦ cc
    | inr (_, accepted, _) ↦ cc
  ]
