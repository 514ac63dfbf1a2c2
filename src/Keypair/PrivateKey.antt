-- ===== src/Keypair/PrivateKey.antt =====
-- `decrypt_private_key` of src/keypair.rs.
use evnx_crypto.Base.{◌<>◌, [], length, not, ◌==◌}
use evnx_crypto.Base.Decimal.{decimal}
use evnx_crypto.Base.Outcome.{ok, ◌>>=◌, ◌>>◌, fail_if, or_err}
use evnx_crypto.Base.Slices.{copy_from_slice}
use evnx_crypto.Crates.{Crates}
use evnx_crypto.Errors.{Result, invalid_input, key_unwrap}
use evnx_crypto.Kdf.MasterKey
use evnx_crypto.Kdf.MasterKey.{MasterKey}
use evnx_crypto.Keypair.Cipher.{new_xchacha_cipher_from_nonce}
use evnx_crypto.Keypair.Derive.{derive_x25519_from_ed25519_seed, derive_mlkem_from_ed25519_seed}
use evnx_crypto.Keypair.Types.{
  UserKeypair, EncryptedPrivateKey, ed25519_private_len, hkdf_info_private_key_enc,
}

unfoldable pub decrypt_private_key :
    (c : Crates) → EncryptedPrivateKey → MasterKey → Result (UserKeypair c)
decrypt_private_key c enc master_key = do
  (cipher, _, nonce) ←
      new_xchacha_cipher_from_nonce c (MasterKey.expose master_key) enc.nonce
        hkdf_info_private_key_enc
  seed_bytes ← or_err (c.xchacha.decrypt cipher nonce [] enc.ciphertext) key_unwrap
  fail_if (not (length seed_bytes == ed25519_private_len)) (
      invalid_input (
        "expected "
        <> decimal ed25519_private_len
        <> " byte seed, got "
        <> decimal (length seed_bytes)))
  seed ← copy_from_slice ed25519_private_len seed_bytes
  let signing_key = c.ed25519.from_bytes seed
  x25519_private ← derive_x25519_from_ed25519_seed c seed
  let x25519_static = c.x25519.static_from x25519_private
  (mlkem_decap, mlkem_public) ← derive_mlkem_from_ed25519_seed c seed
  ok (record {
    ed25519_private_seed = seed;
    ed25519_public = record { bytes = c.ed25519.verifying_key signing_key };
    x25519_private = c.x25519.static_to_bytes x25519_static;
    x25519_public = record {
      bytes = c.x25519.public_to_bytes (c.x25519.static_public x25519_static);
    };
    mlkem_decap = mlkem_decap;
    mlkem_public = mlkem_public;
  })
