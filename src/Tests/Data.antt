-- ===== src/Tests/Data.antt =====
-- The values at which the theorems are applied.
use evnx_crypto.Base.Bytes.{Bytes, Text, ascii, to_byte}
use evnx_crypto.Base.{◌++◌, replicate, take}
use evnx_crypto.Kdf.MasterKey.{MasterKey}
use evnx_crypto.Keypair.Types.{UserKeypair, EncryptedPrivateKey, WrappedVaultKey}
use evnx_crypto.Tests.Toy.{crates, fit, head, point_bytes, tag}
use evnx_crypto.Vault.Open.{EncryptedBlob}
use evnx_crypto.Vault.VaultKey.{VaultKey}

abbrev pub vk : VaultKey
vk = record { bytes = replicate 32 (to_byte 7) }

abbrev pub new_vk : VaultKey
new_vk = record { bytes = replicate 32 (to_byte 8) }

abbrev pub mk : MasterKey
mk = record { bytes = replicate 32 (to_byte 9) }

abbrev pub salt : Bytes
salt = replicate 32 (to_byte 11)

abbrev pub password : Text
password = ascii "correct horse"

abbrev pub plaintext : Bytes
plaintext = ascii "API_KEY=s3cret"

abbrev pub id : Text
id = ascii "8b1f"

abbrev pub other_id : Text
other_id = ascii "8b2f"

-- The blob of the plaintext under `vk`, as the concrete cipher gives it, for this associated data.
abbrev pub sealed : Bytes → EncryptedBlob
sealed aad = record {
  nonce = replicate 12 (to_byte 3);
  ciphertext = plaintext ++ tag (replicate 32 (to_byte 7)) aad;
}

abbrev pub seed : Bytes
seed = replicate 32 (to_byte 5)

abbrev pub scalar : Bytes
scalar = fit 32 (ascii "evnx-x25519-from-ed25519-v1" ++ seed)

abbrev pub kp : UserKeypair crates
kp = record {
  ed25519_private_seed = seed;
  ed25519_public = record { bytes = seed };
  x25519_private = scalar;
  x25519_public = record { bytes = point_bytes (head scalar, to_byte 1) };
  mlkem_decap = to_byte b'e';
  mlkem_public = record { bytes = replicate 1184 (to_byte b'e') };
}

-- What wrapping `vk` for `kp` gives from the third draw on.
abbrev pub shared_wrap : WrappedVaultKey
shared_wrap = record {
  eph_pub_key = point_bytes (to_byte 3, to_byte 1);
  mlkem_ciphertext = replicate 1088 (to_byte 105);
  encrypted_vault_key =
      replicate 24 (to_byte 5) ++ (vk.bytes ++ take 16 (ascii "evnx-vault-key-wrap-v2"));
}

abbrev pub sealed_seed : EncryptedPrivateKey
sealed_seed = record {
  nonce = replicate 24 (to_byte 3);
  ciphertext = seed ++ take 16 (ascii "evnx-private-key-enc-v1");
}
