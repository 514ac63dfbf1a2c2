-- ===== src/Keypair/Laws/Wire.antt =====
-- The wire forms of src/keypair.rs: what is written and what is read.
use evnx_crypto.Base.{
  ◌+◌, ◌*◌, ◌/◌, ◌≤◌, ◌<◌, ◌≡◌, ◌≢◌, ◌↔◌, some, ◌++◌, length, length-append, length-take, take,
  drop, take-append, drop-append, arith, Option-cases, inl, inr, none, lt→ltb, sym, ◌∙◌,
}
use native.Mathlib.Decide.{dec_lt}
use evnx_crypto.Base.Bytes.{Bytes, Text}
use evnx_crypto.Base.Outcome.{ok, ok_injective}
use evnx_crypto.Crates.{Crates}
use evnx_crypto.Crates.Coding.{IsBase64}
use evnx_crypto.Encoding.{b64_encode, b64_decode}
use evnx_crypto.Encoding.Wire.{b64_decode-b64_encode, b64_decode_array-b64_encode}
use evnx_crypto.Keypair.EncryptedPrivateKey as Sealed
use evnx_crypto.Keypair.MlKem768PublicKey as MlKem
use evnx_crypto.Keypair.Types.{EncryptedPrivateKey, WrappedVaultKey, UserPublicKeys}
use evnx_crypto.Keypair.UserPublicKeys as Keys
use evnx_crypto.Keypair.WrappedVaultKey as Wrapped
use evnx_crypto.Keypair.X25519PublicKeyBytes as X25519

module _ (c : Crates) where
  pub length-b64_encode :
      (bytes : Bytes)
      → IsBase64 c.base64
      → length (b64_encode c bytes) ≡ 4 * ((length bytes + 2) / 3)
  unfolding b64_encode
  length-b64_encode bytes b = b.length-encode bytes

  -- With a base64 that behaves as documented: an encrypted private key with a nonce of 24 bytes and
  -- a ciphertext of at least 16 is read back from its text, which has four characters for each
  -- three bytes, begun ones included, of both together.
  pub encrypted_private_key_round_trip :
      (enc : EncryptedPrivateKey)
      → IsBase64 c.base64
      → length enc.nonce ≡ 24
      → 16 ≤ length enc.ciphertext
      → (Sealed.from_base64 c (Sealed.to_base64 c enc) ≡ ok enc)
        × (length (Sealed.to_base64 c enc) ≡ 4 * ((length enc.ciphertext + 26) / 3))
  unfolding Sealed.from_base64 Sealed.to_base64
  encrypted_private_key_round_trip enc b hn long =
      let whole = enc.nonce ++ enc.ciphertext in
      let n : length whole ≡ 24 + length enc.ciphertext =
        omega (arith, length-append enc.nonce enc.ciphertext) in
      (
        rw (b64_decode-b64_encode c whole "encrypted_private_key" b) (
            ground (
              arith,
              take-append 24 enc.nonce enc.ciphertext hn,
              drop-append 24 enc.nonce enc.ciphertext hn,
            )),
        omega (arith, length-b64_encode whole b),
      )

  encrypted_private_key_long :
      (s : Text) {bytes : Bytes}
      → c.base64.decode s ≡ some bytes
      → 40 ≤ length bytes
      → Sealed.from_base64 c s ≡ ok (record { nonce = take 24 bytes; ciphertext = drop 24 bytes })
  unfolding Sealed.from_base64 b64_decode
  encrypted_private_key_long s {bytes} e n = rw e (ground (arith, length-take 24 bytes))

  encrypted_private_key_short :
      (s : Text) {bytes : Bytes} {enc : EncryptedPrivateKey}
      → c.base64.decode s ≡ some bytes
      → length bytes < 40
      → Sealed.from_base64 c s ≢ ok enc
  unfolding Sealed.from_base64 b64_decode
  encrypted_private_key_short s {bytes} e n = rw (e, lt→ltb (length bytes) 40 n) (λ h. cc)

  encrypted_private_key_invalid :
      (s : Text) {enc : EncryptedPrivateKey}
      → c.base64.decode s ≡ none
      → Sealed.from_base64 c s ≢ ok enc
  unfolding Sealed.from_base64 b64_decode
  encrypted_private_key_invalid s e = rw e (λ h. cc)

  -- A text is read as an encrypted private key if and only if it is base64 of at least 40 bytes,
  -- the first 24 of which are the nonce and the others the ciphertext.
  encrypted_private_key-eq_ok_iff :
      (s : Text) (enc : EncryptedPrivateKey)
      → (Sealed.from_base64 c s ≡ ok enc) ↔ (
          (bytes : Bytes) × (c.base64.decode s ≡ some bytes)
          × (40 ≤ length bytes)
          × (enc ≡ record { nonce = take 24 bytes; ciphertext = drop 24 bytes }))
  encrypted_private_key-eq_ok_iff s enc = (
    λ h. elim (Option-cases (c.base64.decode s)) [
      | inl e ↦ absurd (encrypted_private_key_invalid s e h)
      | inr (bytes, e) ↦ elim (dec_lt (length bytes) 40) [
        | yes short ↦ absurd (encrypted_private_key_short s e short h)
        | no long ↦
            let n : 40 ≤ length bytes = omega arith in
            (bytes, e, n, ok_injective (sym h ∙ encrypted_private_key_long s e n))
      ]
    ],
    λ (bytes, e, n, same). rw same (encrypted_private_key_long s e n),
  )

  -- With a base64 that behaves as documented: a wrapped vault key with an ephemeral key of 32 bytes
  -- and an ML-KEM ciphertext of 1088 is read back from its three texts, and the texts of these two
  -- have 44 and 1452 characters.
  pub wrapped_vault_key_round_trip :
      (w : WrappedVaultKey)
      → IsBase64 c.base64
      → length w.eph_pub_key ≡ 32
      → length w.mlkem_ciphertext ≡ 1088
      → (Wrapped.from_base64 c
            (Wrapped.encrypted_vault_key_base64 c w)
            (Wrapped.eph_pub_key_base64 c w)
            (Wrapped.mlkem_ciphertext_base64 c w)
          ≡ ok w)
        × (length (Wrapped.eph_pub_key_base64 c w) ≡ 44)
        × (length (Wrapped.mlkem_ciphertext_base64 c w) ≡ 1452)
  unfolding Wrapped.from_base64 Wrapped.encrypted_vault_key_base64 Wrapped.eph_pub_key_base64
      Wrapped.mlkem_ciphertext_base64
  wrapped_vault_key_round_trip w b ne nc = (
    ground (
      arith,
      b64_decode-b64_encode c w.mlkem_ciphertext "mlkem_ciphertext" b,
      b64_decode_array-b64_encode c 32 w.eph_pub_key "eph_pub_key" b ne,
      b64_decode-b64_encode c w.encrypted_vault_key "encrypted_vault_key" b,
    ),
    omega (arith, length-b64_encode w.eph_pub_key b),
    omega (arith, length-b64_encode w.mlkem_ciphertext b),
  )

  -- With a base64 that behaves as documented: public keys of 32 and 1184 bytes are read back from
  -- their texts, which have 44 and 1580 characters.
  pub user_public_keys_round_trip :
      (keys : UserPublicKeys)
      → IsBase64 c.base64
      → length keys.x25519.bytes ≡ 32
      → length keys.mlkem.bytes ≡ 1184
      → (Keys.from_base64 c (X25519.to_base64 c keys.x25519) (MlKem.to_base64 c keys.mlkem)
          ≡ ok keys)
        × (length (X25519.to_base64 c keys.x25519) ≡ 44)
        × (length (MlKem.to_base64 c keys.mlkem) ≡ 1580)
  unfolding Keys.from_base64 X25519.from_base64 X25519.to_base64 MlKem.from_base64 MlKem.to_base64
  user_public_keys_round_trip keys b nx nm = (
    ground (
      arith,
      b64_decode_array-b64_encode c 32 keys.x25519.bytes "x25519_public_key" b nx,
      b64_decode_array-b64_encode c 1184 keys.mlkem.bytes "mlkem_public_key" b nm,
    ),
    omega (arith, length-b64_encode keys.x25519.bytes b),
    omega (arith, length-b64_encode keys.mlkem.bytes b),
  )
