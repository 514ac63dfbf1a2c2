-- ===== src/Keypair/FreshCipher.antt =====
-- The cipher constructor of src/keypair.rs that draws a nonce.
use evnx_crypto.Base.Bytes.{Bytes}
use evnx_crypto.Base.Outcome.{ok, or_err}
use evnx_crypto.Base.Slices.{from_slice}
use evnx_crypto.Crates.{Crates, Rng}
use evnx_crypto.Crates.Random.{Random, lift, draw, ◌>>=◌}
use evnx_crypto.Errors.{CryptoError, key_wrap}
use evnx_crypto.Keypair.Cipher.{key_bytes}
use evnx_crypto.Keypair.Types.{xchacha_nonce_len}
use evnx_crypto.Zeroize.SecretArray

module _ (c : Crates) where
  unfoldable pub new_xchacha_cipher :
      Bytes → Bytes → Random (Rng c) CryptoError (c.xchacha.Cipher × Bytes × Bytes)
  unfolding key_bytes SecretArray.expose
  new_xchacha_cipher raw_key info = do
    key ← lift (key_bytes c raw_key info)
    cipher ← lift (or_err (c.xchacha.new_from_slice (SecretArray.expose key)) key_wrap)
    nonce_bytes ← draw (c.rand.fill_bytes xchacha_nonce_len)
    nonce ← lift (from_slice xchacha_nonce_len nonce_bytes)
    lift (ok (cipher, nonce_bytes, nonce))
