-- ===== src/Keypair/Laws/Transplant.antt =====
-- A sealed vault key of src/keypair.rs in another place than the one that it was sealed for.
use evnx_crypto.Base.{◌≡◌, ◌≢◌, some, [], take, drop, length, arith}
use evnx_crypto.Base.Bytes.{Bytes}
use evnx_crypto.Base.Outcome.{ok}
use evnx_crypto.Crates.{Crates}
use evnx_crypto.Crates.Curve.{IsX25519}
use evnx_crypto.Crates.Kdf.{IsHkdf}
use evnx_crypto.Crates.Kem.{IsMlKem}
use evnx_crypto.Crates.Sealing.{IsAead}
use evnx_crypto.Keypair.Hybrid.{hybrid_ikm}
use evnx_crypto.Keypair.Laws.Acceptance.{IsWrapFor, unwrap-IsWrapFor}
use evnx_crypto.Keypair.Laws.Identity.{IsUserKeypair}
use evnx_crypto.Keypair.Laws.Share.{static_secret}
use evnx_crypto.Keypair.Laws.Transcript.{hybrid_ikm-injective}
use evnx_crypto.Keypair.Types.{UserKeypair, WrappedVaultKey, hkdf_info_vault_key_wrap}
use evnx_crypto.Keypair.Unwrap.{mlkem_decapsulate, unwrap_vault_key}
use evnx_crypto.Vault.VaultKey.{VaultKey}

module _ (c : Crates) where
  -- The bytes are a nonce and the encryption of the vault key under the cipher of this combiner
  -- input.
  abbrev pub SealsUnder : Bytes → Bytes → VaultKey → Type 0
  SealsUnder ikm sealed vk =
      (key : Bytes) × (k : c.xchacha.Cipher) × (c.hkdf.expand (c.hkdf.extract ikm)
          hkdf_info_vault_key_wrap 32
        ≡ some key)
      × (c.xchacha.new_from_slice key ≡ some k)
      × (c.xchacha.encrypt k (take 24 sealed) [] vk.bytes ≡ some (drop 24 sealed))

  length-mlkem_decapsulate :
      (kp : UserKeypair c) (ct : Bytes) {ss : Bytes}
      → IsMlKem c.mlkem
      → mlkem_decapsulate c kp ct ≡ ok ss
      → length ss ≡ 32
  unfolding mlkem_decapsulate
  length-mlkem_decapsulate kp ct m e = ground (arith, m.decapsulate_slice_length)

  length-public :
      (kp : UserKeypair c)
      → IsX25519 c.x25519
      → IsUserKeypair c kp
      → length kp.x25519_public.bytes ≡ 32
  length-public kp x v = rw v.x25519_public_eq (x.length-public_to_bytes _)

  -- The combiner input of an accepted wrap.
  abbrev input :
      (w : WrappedVaultKey) (kp : UserKeypair c) {vk : VaultKey} → IsWrapFor c w kp vk → Bytes
  input w kp q =
      hybrid_ikm q.secret (c.x25519.as_bytes (static_secret c kp w.eph_pub_key)) w.mlkem_ciphertext
        w.eph_pub_key kp.x25519_public.bytes

  input-SealsUnder :
      (w : WrappedVaultKey) (kp : UserKeypair c) {vk : VaultKey} (q : IsWrapFor c w kp vk)
      → SealsUnder (input w kp q) w.encrypted_vault_key vk
  input-SealsUnder w kp q = let (key, e, n) = q.derived in (key, q.cipher, e, n, q.sealed)

  -- With crates that behave as documented, complete keypairs and ephemeral keys of 32 bytes: if two
  -- wraps with the same sealed key open, each with a keypair, but differ in the ephemeral key, in
  -- the ML-KEM ciphertext or in the X25519 public key of the keypair, then that sealed key is the
  -- encryption of both vault keys under the keys that HKDF derives from two different combiner
  -- inputs.
  pub transplanted_wrap :
      (w w' : WrappedVaultKey) (kp kp' : UserKeypair c) {vk vk' : VaultKey}
      → IsAead c.xchacha
      → IsHkdf c.hkdf
      → IsMlKem c.mlkem
      → IsX25519 c.x25519
      → IsUserKeypair c kp
      → IsUserKeypair c kp'
      → length w.eph_pub_key ≡ 32
      → length w'.eph_pub_key ≡ 32
      → w.encrypted_vault_key ≡ w'.encrypted_vault_key
      → ¬ (
          (w.eph_pub_key ≡ w'.eph_pub_key)
          × (w.mlkem_ciphertext ≡ w'.mlkem_ciphertext)
          × (kp.x25519_public.bytes ≡ kp'.x25519_public.bytes))
      → unwrap_vault_key c w kp ≡ ok vk
      → unwrap_vault_key c w' kp' ≡ ok vk'
      → (ikm : Bytes) × (ikm' : Bytes) × (ikm ≢ ikm')
        × SealsUnder ikm w.encrypted_vault_key vk
        × SealsUnder ikm' w.encrypted_vault_key vk'
  transplanted_wrap w w' kp kp' {vk} {vk'} a h m x v v' n n' same other e e' =
      let q = unwrap-IsWrapFor c w kp a h m e in
      let q' = unwrap-IsWrapFor c w' kp' a h m e' in
      let differ : input w kp q ≢ input w' kp' q' = λ p.
        (let (_, _, ct, eph, rec) =
            hybrid_ikm-injective _ _ _ _ _ _ _ _ _ _
              (length-mlkem_decapsulate kp _ m q.decapsulated)
              (length-mlkem_decapsulate kp' _ m q'.decapsulated) (x.length-as_bytes _)
              (x.length-as_bytes _) n n' (length-public kp x v) (length-public kp' x v') p in
          other (eph, ct, rec)) in
      (
        input w kp q,
        input w' kp' q',
        differ,
        input-SealsUnder w kp q,
        rw same (input-SealsUnder w' kp' q'),
      )
