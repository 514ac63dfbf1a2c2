-- ===== src/Kdf.antt =====
-- src/kdf.rs: the two Argon2id derivations from the password, salts, and HKDF subkeys.
pub mod MasterKey
pub mod Derivation
use evnx_crypto.Base.{ℕ, String, ◌≡◌, length}
use evnx_crypto.Base.Bytes.{Bytes, Text, ascii}
use evnx_crypto.Base.Outcome.{ok, err, ◌>>=◌, or_err, or_failure}
use evnx_crypto.Crates.{Crates, Rng}
use evnx_crypto.Crates.Kdf.{argon2id, v0x13}
use evnx_crypto.Encoding.{b64_encode, b64_decode_array}
use evnx_crypto.Errors.{CryptoError, Result}
use evnx_crypto.Zeroize.SecretArray
use evnx_crypto.Zeroize.SecretArray.{SecretArray}

abbrev pub master_key_len : ℕ
master_key_len = 32

abbrev pub salt_len : ℕ
salt_len = 32

abbrev pub srp_password_len : ℕ
srp_password_len = 32

abbrev pub argon2_m_cost : ℕ
argon2_m_cost = 65536

abbrev pub argon2_t_cost : ℕ
argon2_t_cost = 3

abbrev pub argon2_p_cost : ℕ
argon2_p_cost = 4

-- The domain tags, which Argon2 takes as its secret.
abbrev pub kdf_domain_master_key : Bytes
kdf_domain_master_key = ascii "evnx-master-key-v1"

abbrev pub kdf_domain_srp_password : Bytes
kdf_domain_srp_password = ascii "evnx-srp-password-v1"

module _ (c : Crates) where
  unfoldable pub generate_salt : Rng c → Bytes × Rng c
  generate_salt g = c.rand.fill_bytes salt_len g

  unfoldable pub derive_master_key : Bytes → Bytes → Result MasterKey.MasterKey
  derive_master_key password salt = do
    params ←
        or_failure CryptoError.kdf
          (c.argon2.new_params argon2_m_cost argon2_t_cost argon2_p_cost master_key_len)
    argon2 ←
        or_failure CryptoError.kdf
          (c.argon2.new_with_secret kdf_domain_master_key argon2id v0x13 params)
    key ←
        or_failure CryptoError.kdf (c.argon2.hash_password_into argon2 password salt master_key_len)
    ok (record { bytes = key })

  unfoldable pub derive_srp_password : Bytes → Bytes → Result Bytes
  derive_srp_password password srp_salt = do
    params ←
        or_failure CryptoError.kdf
          (c.argon2.new_params argon2_m_cost argon2_t_cost argon2_p_cost srp_password_len)
    argon2 ←
        or_failure CryptoError.kdf
          (c.argon2.new_with_secret kdf_domain_srp_password argon2id v0x13 params)
    output ←
        or_failure CryptoError.kdf
          (c.argon2.hash_password_into argon2 password srp_salt srp_password_len)
    ok output

  unfoldable pub salt_to_base64 : Bytes → Text
  salt_to_base64 salt = b64_encode c salt

  unfoldable pub salt_from_base64 : Text → Result Bytes
  salt_from_base64 s = b64_decode_array c salt_len s "salt"

  unfoldable pub hkdf_subkey : Bytes → Bytes → Result SecretArray
  unfolding SecretArray.expose_mut SecretArray.zeroed
  hkdf_subkey ikm info = do
    let hkdf = c.hkdf.extract ikm
    let key = SecretArray.zeroed 32
    written ← or_err (c.hkdf.expand hkdf info 32) (CryptoError.kdf "HKDF expand failed")
    ok (SecretArray.expose_mut key written)
