-- ===== src/Keypair/WrappedVaultKey.antt =====
-- The wire form of `WrappedVaultKey` in src/keypair.rs: three base64 fields.
use evnx_crypto.Base.{◌<>◌, length, not, ◌==◌}
use evnx_crypto.Base.Bytes.{Text}
use evnx_crypto.Base.Decimal.{decimal}
use evnx_crypto.Base.Outcome.{ok, ◌>>=◌, ◌>>◌, fail_if}
use evnx_crypto.Crates.{Crates}
use evnx_crypto.Encoding.{b64_encode, b64_decode, b64_decode_array}
use evnx_crypto.Errors.{Result, invalid_input}
use evnx_crypto.Keypair.Types.{WrappedVaultKey, x25519_public_len, mlkem768_ciphertext_len}

module _ (c : Crates) where
  unfoldable pub encrypted_vault_key_base64 : WrappedVaultKey → Text
  encrypted_vault_key_base64 w = b64_encode c w.encrypted_vault_key

  unfoldable pub eph_pub_key_base64 : WrappedVaultKey → Text
  eph_pub_key_base64 w = b64_encode c w.eph_pub_key

  unfoldable pub mlkem_ciphertext_base64 : WrappedVaultKey → Text
  mlkem_ciphertext_base64 w = b64_encode c w.mlkem_ciphertext

  -- The ML-KEM ciphertext is decoded and measured first.
  unfoldable pub from_base64 : Text → Text → Text → Result WrappedVaultKey
  from_base64 encrypted_vault_key_b64 eph_pub_key_b64 mlkem_ciphertext_b64 = do
    mlkem_ciphertext ← b64_decode c mlkem_ciphertext_b64 "mlkem_ciphertext"
    fail_if (not (length mlkem_ciphertext == mlkem768_ciphertext_len)) (
        invalid_input (
          "mlkem_ciphertext must be "
          <> decimal mlkem768_ciphertext_len
          <> " bytes, got "
          <> decimal (length mlkem_ciphertext)))
    eph_pub_key ← b64_decode_array c x25519_public_len eph_pub_key_b64 "eph_pub_key"
    encrypted_vault_key ← b64_decode c encrypted_vault_key_b64 "encrypted_vault_key"
    ok (record {
      eph_pub_key = eph_pub_key;
      mlkem_ciphertext = mlkem_ciphertext;
      encrypted_vault_key = encrypted_vault_key;
    })
