-- ===== src/Keypair/Cipher.antt =====
-- The cipher constructor of src/keypair.rs for a given nonce, and the choice of its key.
use evnx_crypto.Base.{length, ◌==◌, if◌then◌else◌}
use evnx_crypto.Base.Bytes.{Bytes}
use evnx_crypto.Base.Outcome.{ok, or_err, ◌>>=◌}
use evnx_crypto.Base.Slices.{from_slice}
use evnx_crypto.Crates.{Crates}
use evnx_crypto.Errors.{CryptoError, Result, key_unwrap}
use evnx_crypto.Keypair.Types.{xchacha_nonce_len, xchacha_key_len}
use evnx_crypto.Zeroize.SecretArray
use evnx_crypto.Zeroize.SecretArray.{SecretArray}

module _ (c : Crates) where
  -- The `key_bytes` of both constructors: the raw key itself where `info` is empty.
  unfoldable pub key_bytes : Bytes → Bytes → Result SecretArray
  unfolding SecretArray.new SecretArray.zeroed SecretArray.expose_mut
  key_bytes raw_key info = if length info == 0 then ok (SecretArray.new raw_key) else (do
    let hkdf = c.hkdf.extract raw_key
    let derived = SecretArray.zeroed xchacha_key_len
    written ←
        or_err (c.hkdf.expand hkdf info xchacha_key_len) (CryptoError.kdf "HKDF expand failed")
    ok (SecretArray.expose_mut derived written))

  -- The cipher, the nonce as bytes, and the nonce as the cipher takes it.
  unfoldable pub new_xchacha_cipher_from_nonce :
      Bytes → Bytes → Bytes → Result (c.xchacha.Cipher × Bytes × Bytes)
  unfolding key_bytes SecretArray.expose
  new_xchacha_cipher_from_nonce raw_key nonce_bytes info = do
    key ← key_bytes raw_key info
    cipher ← or_err (c.xchacha.new_from_slice (SecretArray.expose key)) key_unwrap
    nonce ← from_slice xchacha_nonce_len nonce_bytes
    ok (cipher, nonce_bytes, nonce)
