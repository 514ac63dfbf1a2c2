-- ===== src/Keypair/Laws/Seal.antt =====
-- `encrypt_private_key` and `decrypt_private_key` of src/keypair.rs against each other.
use evnx_crypto.Base.{◌≡◌, inl, inr, some, [], length, arith, Option-cases}
use evnx_crypto.Base.Bytes.{Bytes}
use evnx_crypto.Base.Outcome.{ok}
use evnx_crypto.Crates.{Crates, Rng}
use evnx_crypto.Crates.Curve.{IsX25519}
use evnx_crypto.Crates.Kdf.{IsHkdf}
use evnx_crypto.Crates.Kem.{IsMlKem}
use evnx_crypto.Crates.Random.{IsFilling}
use evnx_crypto.Crates.Sealing.{IsAead}
use evnx_crypto.Kdf.MasterKey
use evnx_crypto.Kdf.MasterKey.{MasterKey}
use evnx_crypto.Keypair.Cipher.{new_xchacha_cipher_from_nonce}
use evnx_crypto.Keypair.FreshCipher.{new_xchacha_cipher}
use evnx_crypto.Keypair.Generate.{encrypt_private_key}
use evnx_crypto.Keypair.Laws.Identity.{IsUserKeypair, IsUserKeypair-of_seed}
use evnx_crypto.Keypair.PrivateKey.{decrypt_private_key}
use evnx_crypto.Keypair.Types.{UserKeypair, EncryptedPrivateKey, hkdf_info_private_key_enc}

module _ (c : Crates) where
  -- The cipher of the subkey that seals private keys.
  abbrev pub IsSealCipher : MasterKey → c.xchacha.Cipher → Type 0
  IsSealCipher mk k =
      (subkey : Bytes) × (c.hkdf.expand (c.hkdf.extract mk.bytes) hkdf_info_private_key_enc 32
        ≡ some subkey)
      × (c.xchacha.new_from_slice subkey ≡ some k)

  IsSealCipher-total :
      (mk : MasterKey)
      → IsHkdf c.hkdf
      → IsAead c.xchacha
      → (k : c.xchacha.Cipher) × IsSealCipher mk k
  IsSealCipher-total mk h a =
      let (s, e) =
        h.expand_ok (c.hkdf.extract mk.bytes) hkdf_info_private_key_enc 32 (omega arith) in
      let (k, ek) = a.new_from_slice_ok s (h.length-expand _ hkdf_info_private_key_enc 32 s e) in
      (k, (s, e, ek))

  module _ (mk : MasterKey) (k : c.xchacha.Cipher) (derived : IsSealCipher mk k) where
    fresh_cipher_lem :
        (g : Rng c)
        → length (c.rand.fill_bytes 24 g).0 ≡ 24
        → let (nonce, g') = c.rand.fill_bytes 24 g in
          new_xchacha_cipher c mk.bytes hkdf_info_private_key_enc g ≡ (ok (k, nonce, nonce), g')
    unfolding new_xchacha_cipher
    fresh_cipher_lem g hn = ground (arith, derived)

    cipher_from_nonce_lem :
        (nonce : Bytes)
        → length nonce ≡ 24
        → new_xchacha_cipher_from_nonce c mk.bytes nonce hkdf_info_private_key_enc
          ≡ ok (k, nonce, nonce)
    unfolding new_xchacha_cipher_from_nonce
    cipher_from_nonce_lem nonce hn = ground (arith, derived)

    encrypt_private_key_lem :
        (kp : UserKeypair c) (g : Rng c) {ct : Bytes}
        → length (c.rand.fill_bytes 24 g).0 ≡ 24
        → c.xchacha.encrypt k (c.rand.fill_bytes 24 g).0 [] kp.ed25519_private_seed ≡ some ct
        → let (nonce, g') = c.rand.fill_bytes 24 g in
          encrypt_private_key c kp mk g ≡ (ok (record { nonce = nonce; ciphertext = ct }), g')
    unfolding encrypt_private_key MasterKey.expose
    encrypt_private_key_lem kp g hn e = ground (arith, fresh_cipher_lem g hn)

    decrypt_private_key_lem :
        (enc : EncryptedPrivateKey) (kp : UserKeypair c)
        → IsX25519 c.x25519
        → IsUserKeypair c kp
        → length enc.nonce ≡ 24
        → c.xchacha.decrypt k enc.nonce [] enc.ciphertext ≡ some kp.ed25519_private_seed
        → decrypt_private_key c enc mk ≡ ok kp
    unfolding decrypt_private_key MasterKey.expose
    decrypt_private_key_lem enc kp x v hn e = ground (
      arith,
      cipher_from_nonce_lem enc.nonce hn,
      x.static_to_bytes-static_from kp.x25519_private v.x25519_length,
    )

  -- With crates that behave as documented and a complete keypair: sealing the keypair under a
  -- master key succeeds, with a nonce of 24 bytes and a ciphertext of 48, and opening the result
  -- under that master key gives the same keypair, all six fields of it.
  pub encrypt_then_decrypt_private_key :
      (kp : UserKeypair c) (mk : MasterKey) (g : Rng c)
      → IsAead c.xchacha
      → IsHkdf c.hkdf
      → IsFilling c.rand
      → IsX25519 c.x25519
      → IsUserKeypair c kp
      → (enc : EncryptedPrivateKey) × (g' : Rng c) × (encrypt_private_key c kp mk g ≡ (ok enc, g'))
        × (length enc.nonce ≡ 24)
        × (length enc.ciphertext ≡ 48)
        × (decrypt_private_key c enc mk ≡ ok kp)
  encrypt_then_decrypt_private_key kp mk g a h f x v =
      let (k, derived) = IsSealCipher-total mk h a in
      let (nonce, g') = c.rand.fill_bytes 24 g in
      let seed = kp.ed25519_private_seed in
      let hn : length nonce ≡ 24 = f.length-fill_bytes 24 g in
      let n : length seed ≡ 32 = v.seed_length in
      let (ct, e) = a.encrypt_ok k nonce [] seed (omega arith) (omega arith) in
      let enc : EncryptedPrivateKey = record { nonce = nonce; ciphertext = ct } in
      (
        enc,
        g',
        encrypt_private_key_lem mk k derived kp g hn e,
        hn,
        omega (arith, a.length-encrypt k nonce [] seed ct e),
        decrypt_private_key_lem mk k derived enc kp x v hn (a.decrypt-encrypt k nonce [] seed ct e),
      )

  decrypt_private_key-sealed :
      (enc : EncryptedPrivateKey) (mk : MasterKey) (k : c.xchacha.Cipher) {kp : UserKeypair c}
      → IsSealCipher mk k
      → decrypt_private_key c enc mk ≡ ok kp
      → (seed : Bytes) × (c.xchacha.decrypt k enc.nonce [] enc.ciphertext ≡ some seed)
        × (length seed ≡ 32)
        × (length enc.nonce ≡ 24)
  unfolding decrypt_private_key new_xchacha_cipher_from_nonce MasterKey.expose
  decrypt_private_key-sealed enc mk k derived e =
      elim (Option-cases (c.xchacha.decrypt k enc.nonce [] enc.ciphertext)) [
        | inl refused ↦ ground (arith, derived)
        | inr (seed, opened) ↦ (seed, opened, ground (arith, derived), ground (arith, derived))
      ]

  -- With crates that behave as documented: what opens as a private key is a complete keypair, every
  -- part of it derived from its seed, and the input was the encryption of that seed under the
  -- subkey of the master key.
  pub decrypt_private_key-IsUserKeypair :
      (enc : EncryptedPrivateKey) (mk : MasterKey) {kp : UserKeypair c}
      → IsAead c.xchacha
      → IsHkdf c.hkdf
      → IsMlKem c.mlkem
      → IsX25519 c.x25519
      → decrypt_private_key c enc mk ≡ ok kp
      → IsUserKeypair c kp
        × (k : c.xchacha.Cipher) × IsSealCipher mk k
        × (c.xchacha.encrypt k enc.nonce [] kp.ed25519_private_seed ≡ some enc.ciphertext)
  decrypt_private_key-IsUserKeypair enc mk {kp} a h m x e =
      let (k, derived) = IsSealCipher-total mk h a in
      let (seed, opened, n, hn) = decrypt_private_key-sealed enc mk k derived e in
      let (kp', same_seed, v) = IsUserKeypair-of_seed c seed h m n in
      let opened' : c.xchacha.decrypt k enc.nonce [] enc.ciphertext
          ≡ some kp'.ed25519_private_seed =
        rw same_seed opened in
      let same : kp ≡ kp' = cc (e, decrypt_private_key_lem mk k derived enc kp' x v hn opened') in
      let sealed = a.encrypt-decrypt k enc.nonce [] enc.ciphertext seed opened in
      rw same (v, k, derived, rw same_seed sealed)
