-- ===== src/Keypair/EncryptedPrivateKey.antt =====
-- The wire form of `EncryptedPrivateKey` in src/keypair.rs: base64 of the nonce and the ciphertext.
use evnx_crypto.Base.{ℕ, ◌+◌, ◌++◌, ◌<>◌, length, ltb}
use evnx_crypto.Base.Bytes.{Text}
use evnx_crypto.Base.Decimal.{decimal}
use evnx_crypto.Base.Outcome.{ok, ◌>>=◌, ◌>>◌, fail_if}
use evnx_crypto.Base.Slices.{copy_from_slice, slice_to, slice_from}
use evnx_crypto.Crates.{Crates}
use evnx_crypto.Encoding.{b64_encode, b64_decode}
use evnx_crypto.Errors.{Result, invalid_input}
use evnx_crypto.Keypair.Types.{EncryptedPrivateKey, xchacha_nonce_len, poly1305_tag_len}

abbrev pub min_len : ℕ
min_len = xchacha_nonce_len + poly1305_tag_len

module _ (c : Crates) where
  unfoldable pub to_base64 : EncryptedPrivateKey → Text
  to_base64 enc = let combined = enc.nonce ++ enc.ciphertext in b64_encode c combined

  unfoldable pub from_base64 : Text → Result EncryptedPrivateKey
  from_base64 s = do
    bytes ← b64_decode c s "encrypted_private_key"
    fail_if (ltb (length bytes) min_len) (
        invalid_input (
          "encrypted_private_key: expected at least "
          <> decimal min_len
          <> " bytes, got "
          <> decimal (length bytes)))
    prefix ← slice_to xchacha_nonce_len bytes
    nonce ← copy_from_slice xchacha_nonce_len prefix
    ciphertext ← slice_from xchacha_nonce_len bytes
    ok (record { nonce = nonce; ciphertext = ciphertext })
