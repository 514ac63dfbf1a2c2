-- ===== src/Keypair/Types.antt =====
-- The constants and the types of src/keypair.rs. Arrays are byte lists.
use evnx_crypto.Base.{ℕ}
use evnx_crypto.Base.Bytes.{Bytes, ascii}
use evnx_crypto.Crates.{Crates}

abbrev pub xchacha_nonce_len : ℕ
xchacha_nonce_len = 24

abbrev pub ed25519_private_len : ℕ
ed25519_private_len = 32

abbrev pub x25519_private_len : ℕ
x25519_private_len = 32

abbrev pub x25519_public_len : ℕ
x25519_public_len = 32

abbrev pub mlkem_seed_len : ℕ
mlkem_seed_len = 64

abbrev pub mlkem768_public_len : ℕ
mlkem768_public_len = 1184

abbrev pub mlkem768_ciphertext_len : ℕ
mlkem768_ciphertext_len = 1088

abbrev pub mlkem_shared_secret_len : ℕ
mlkem_shared_secret_len = 32

abbrev pub xchacha_key_len : ℕ
xchacha_key_len = 32

abbrev pub poly1305_tag_len : ℕ
poly1305_tag_len = 16

abbrev pub hkdf_info_vault_key_wrap : Bytes
hkdf_info_vault_key_wrap = ascii "evnx-vault-key-wrap-v2"

abbrev pub hkdf_info_private_key_enc : Bytes
hkdf_info_private_key_enc = ascii "evnx-private-key-enc-v1"

abbrev pub hkdf_info_mlkem_derive : Bytes
hkdf_info_mlkem_derive = ascii "evnx/mlkem768/v1"

pub record Ed25519PublicKey : Type 0 where
  pub bytes : Bytes

pub record X25519PublicKeyBytes : Type 0 where
  pub bytes : Bytes

pub record MlKem768PublicKey : Type 0 where
  pub bytes : Bytes

pub record UserKeypair (c : Crates) : Type 0 where
  pub ed25519_private_seed : Bytes
  pub ed25519_public : Ed25519PublicKey
  pub x25519_private : Bytes
  pub x25519_public : X25519PublicKeyBytes
  pub mlkem_decap : c.mlkem.DecapsulationKey
  pub mlkem_public : MlKem768PublicKey

pub record EncryptedPrivateKey : Type 0 where
  pub nonce : Bytes
  pub ciphertext : Bytes

pub record WrappedVaultKey : Type 0 where
  pub eph_pub_key : Bytes
  pub mlkem_ciphertext : Bytes
  pub encrypted_vault_key : Bytes

pub record UserPublicKeys : Type 0 where
  pub x25519 : X25519PublicKeyBytes
  pub mlkem : MlKem768PublicKey
