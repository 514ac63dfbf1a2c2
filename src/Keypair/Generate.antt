-- ===== src/Keypair/Generate.antt =====
-- `generate_keypair` and `encrypt_private_key` of src/keypair.rs.
use evnx_crypto.Base.{[]}
use evnx_crypto.Base.Outcome.{ok, or_err, expect}
use evnx_crypto.Crates.{Crates, Rng}
use evnx_crypto.Crates.Random.{Random, lift, draw, ◌>>=◌}
use evnx_crypto.Errors.{CryptoError, key_wrap}
use evnx_crypto.Kdf.MasterKey
use evnx_crypto.Kdf.MasterKey.{MasterKey}
use evnx_crypto.Keypair.Derive.{derive_x25519_from_ed25519_seed, derive_mlkem_from_ed25519_seed}
use evnx_crypto.Keypair.FreshCipher.{new_xchacha_cipher}
use evnx_crypto.Keypair.Types.{UserKeypair, EncryptedPrivateKey, hkdf_info_private_key_enc}

module _ (c : Crates) where
  -- There is no error value, as the type says: a failed derivation panics.
  unfoldable pub generate_keypair : Random (Rng c) ⊥ (UserKeypair c)
  generate_keypair = do
    ed25519_signing_key ← draw c.ed25519.generate
    let ed25519_private_seed = c.ed25519.to_bytes ed25519_signing_key
    x25519_private_bytes ← lift (expect (derive_x25519_from_ed25519_seed c ed25519_private_seed))
    let x25519_static = c.x25519.static_from x25519_private_bytes
    (mlkem_decap, mlkem_public) ←
        lift (expect (derive_mlkem_from_ed25519_seed c ed25519_private_seed))
    lift (
        ok (record {
          ed25519_private_seed = ed25519_private_seed;
          ed25519_public = record { bytes = c.ed25519.verifying_key ed25519_signing_key };
          x25519_private = c.x25519.static_to_bytes x25519_static;
          x25519_public = record {
            bytes = c.x25519.public_to_bytes (c.x25519.static_public x25519_static);
          };
          mlkem_decap = mlkem_decap;
          mlkem_public = mlkem_public;
        }))

  unfoldable pub encrypt_private_key :
      UserKeypair c → MasterKey → Random (Rng c) CryptoError EncryptedPrivateKey
  encrypt_private_key keypair master_key = do
    (cipher, nonce_bytes, nonce) ←
        new_xchacha_cipher c (MasterKey.expose master_key) hkdf_info_private_key_enc
    ciphertext ←
        lift (or_err (c.xchacha.encrypt cipher nonce [] keypair.ed25519_private_seed) key_wrap)
    lift (ok (record { nonce = nonce_bytes; ciphertext = ciphertext }))
