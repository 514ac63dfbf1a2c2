-- ===== src/Wasm/Machine/Exports/Keys.antt =====
-- The exports of src/wasm.rs that derive, seal and open the user's keys.
use evnx_crypto.Base.Bytes.{Bytes, Text}
use evnx_crypto.Base.Outcome.{
  panic, map_err, Any, Safe, Safe-of, Safe-live, Safe-bind, Safe-map_err, Safe-fail_if, Safe-or_err,
}
use evnx_crypto.Base.{◌≡◌, ◌≢◌, length, ltb, length-take, arith}
use evnx_crypto.Crates.Curve.{IsEd25519, IsX25519}
use evnx_crypto.Crates.Kdf.{IsArgon2, IsHkdf}
use evnx_crypto.Crates.Kem.{IsMlKem}
use evnx_crypto.Crates.Random.{IsFilling}
use evnx_crypto.Crates.Sealing.{IsAead}
use evnx_crypto.Crates.{Crates, Rng}
use evnx_crypto.Encoding.{b64_decode, b64_decode_array}
use evnx_crypto.Kdf
use evnx_crypto.Kdf.Derivation.{derive_master_key-IsMasterKey}
use evnx_crypto.Kdf.MasterKey.{MasterKey, IsMasterKey}
use evnx_crypto.Keypair.Cipher.{new_xchacha_cipher_from_nonce}
use evnx_crypto.Keypair.Derive.{derive_x25519_from_ed25519_seed, derive_mlkem_from_ed25519_seed}
use evnx_crypto.Keypair.EncryptedPrivateKey as Sealed
use evnx_crypto.Keypair.FreshCipher.{new_xchacha_cipher}
use evnx_crypto.Keypair.Generate
use evnx_crypto.Keypair.Laws.Identity.{IsUserKeypair}
use evnx_crypto.Keypair.Laws.Seal.{decrypt_private_key-IsUserKeypair}
use evnx_crypto.Keypair.MlKem768PublicKey as Public
use evnx_crypto.Keypair.PrivateKey
use evnx_crypto.Keypair.Types.{EncryptedPrivateKey}
use evnx_crypto.Wasm.Account.{generate_complete}
use evnx_crypto.Wasm.Calls.{
  salt_from_b64, derive_master_key, derive_srp_password, decrypt_private_key,
}
use evnx_crypto.Wasm.Draws.{generate_keypair, encrypt_private_key}
use evnx_crypto.Wasm.Handles.{js, MasterKeyHandle, KeypairHandle}

module _ (c : Crates) where
  pub salt_from_b64_live : (s : Text) → salt_from_b64 c s ≢ panic
  unfolding salt_from_b64 Kdf.salt_from_base64 b64_decode_array b64_decode
  salt_from_b64_live s = ground arith

  derive_live : (password salt : Bytes) → Kdf.derive_master_key c password salt ≢ panic
  unfolding Kdf.derive_master_key
  derive_live password salt = ground arith

  derive_lem :
      (password salt : Bytes)
      → IsArgon2 c.argon2
      → Safe IsMasterKey (Kdf.derive_master_key c password salt)
  derive_lem password salt a =
      Safe-of IsMasterKey (Kdf.derive_master_key c password salt) (derive_live password salt)
        (λ k e. derive_master_key-IsMasterKey c password salt a e)

  pub derive_master_key-Safe :
      (password salt : Text)
      → IsArgon2 c.argon2
      → Safe (λ h. IsMasterKey h.inner) (derive_master_key c password salt)
  unfolding derive_master_key
  derive_master_key-Safe password salt a =
      Safe-bind Any (λ h. IsMasterKey h.inner) (salt_from_b64 c salt) _
        (Safe-live (salt_from_b64 c salt) (salt_from_b64_live salt))
        (λ s _.
          Safe-bind IsMasterKey (λ h. IsMasterKey h.inner)
            (map_err js (Kdf.derive_master_key c password s)) _
            (Safe-map_err IsMasterKey js (Kdf.derive_master_key c password s)
              (derive_lem password s a))
            (λ k n. n))

  derive_srp_live : (password salt : Bytes) → Kdf.derive_srp_password c password salt ≢ panic
  unfolding Kdf.derive_srp_password
  derive_srp_live password salt = ground arith

  pub derive_srp_password-Safe :
      (password salt : Text) → Safe Any (derive_srp_password c password salt)
  unfolding derive_srp_password
  derive_srp_password-Safe password salt =
      Safe-bind Any Any (salt_from_b64 c salt) _
        (Safe-live (salt_from_b64 c salt) (salt_from_b64_live salt))
        (λ s _.
          Safe-bind Any Any (map_err js (Kdf.derive_srp_password c password s)) _
            (Safe-map_err Any js (Kdf.derive_srp_password c password s)
              (Safe-live (Kdf.derive_srp_password c password s) (derive_srp_live password s)))
            (λ _ _. tt))

  pub generate_keypair-Safe :
      (g : Rng c)
      → IsHkdf c.hkdf
      → IsMlKem c.mlkem
      → IsEd25519 c.ed25519
      → IsX25519 c.x25519
      → Safe (λ k. IsUserKeypair c k.inner) (generate_keypair c g).0
  generate_keypair-Safe g h m ed x = let (kp, g', e, v) = generate_complete c g h m ed x in rw e v

  encrypt_private_key_live :
      (kp : KeypairHandle c) (mk : MasterKeyHandle) (g : Rng c)
      → IsFilling c.rand
      → ¬ ((encrypt_private_key c kp mk g).0 ≡ panic)
  unfolding encrypt_private_key Generate.encrypt_private_key new_xchacha_cipher
  encrypt_private_key_live kp mk g f = ground (arith, f.length-fill_bytes 24 g)

  pub encrypt_private_key-Safe :
      (kp : KeypairHandle c) (mk : MasterKeyHandle) (g : Rng c)
      → IsFilling c.rand
      → Safe Any (encrypt_private_key c kp mk g).0
  encrypt_private_key-Safe kp mk g f =
      Safe-live (encrypt_private_key c kp mk g).0 (encrypt_private_key_live kp mk g f)

  open_live :
      (enc : EncryptedPrivateKey) (mk : MasterKey)
      → length enc.nonce ≡ 24
      → PrivateKey.decrypt_private_key c enc mk ≢ panic
  unfolding PrivateKey.decrypt_private_key new_xchacha_cipher_from_nonce
      derive_x25519_from_ed25519_seed derive_mlkem_from_ed25519_seed Public.from_bytes
  open_live enc mk n = ground arith

  -- What is read from a text has a nonce of 24 bytes.
  read-Safe : (s : Text) → Safe (λ enc. length enc.nonce ≡ 24) (Sealed.from_base64 c s)
  unfolding Sealed.from_base64 b64_decode
  read-Safe s =
      Safe-bind Any (λ enc. length enc.nonce ≡ 24) (b64_decode c s "encrypted_private_key") _
        (Safe-or_err (c.base64.decode s) _)
        (λ bytes _.
          Safe-fail_if (λ enc. length enc.nonce ≡ 24) (ltb (length bytes) 40) _ _
            (λ long. ground (arith, length-take 24 bytes)))

  pub decrypt_private_key-Safe :
      (s : Text) (mk : MasterKeyHandle)
      → IsAead c.xchacha
      → IsHkdf c.hkdf
      → IsMlKem c.mlkem
      → IsX25519 c.x25519
      → Safe (λ k. IsUserKeypair c k.inner) (decrypt_private_key c s mk)
  unfolding decrypt_private_key
  decrypt_private_key-Safe s mk a h m x =
      Safe-bind (λ enc. length enc.nonce ≡ 24) (λ k. IsUserKeypair c k.inner)
        (map_err js (Sealed.from_base64 c s)) _
        (Safe-map_err (λ enc. length enc.nonce ≡ 24) js (Sealed.from_base64 c s) (read-Safe s))
        (λ enc n.
          Safe-bind (IsUserKeypair c) (λ k. IsUserKeypair c k.inner)
            (map_err js (PrivateKey.decrypt_private_key c enc mk.inner)) _
            (Safe-map_err (IsUserKeypair c) js (PrivateKey.decrypt_private_key c enc mk.inner) (
              Safe-of (IsUserKeypair c) (PrivateKey.decrypt_private_key c enc mk.inner)
                (open_live enc mk.inner n)
                (λ kp e. (decrypt_private_key-IsUserKeypair c enc mk.inner a h m x e).0)))
            (λ kp v. v))
