-- ===== src/Tests/Passwords.antt =====
-- A sealed private key and a wrapped vault key under two passwords. The concrete cipher opens both,
-- since the subkeys agree in the bytes that it looks at.
use evnx_crypto.Base.Bytes.{Bytes, Text, ascii, to_byte}
use evnx_crypto.Base.Outcome.{ok}
use evnx_crypto.Base.{◌++◌, ◌≡◌, ◌⊎◌, refl, replicate, take, drop}
use evnx_crypto.Kdf.MasterKey
use evnx_crypto.Kdf.MasterKey.{MasterKey}
use evnx_crypto.Kdf.{derive_master_key, hkdf_subkey}
use evnx_crypto.Keypair.Cipher.{new_xchacha_cipher_from_nonce, key_bytes}
use evnx_crypto.Keypair.Derive.{derive_x25519_from_ed25519_seed, derive_mlkem_from_ed25519_seed}
use evnx_crypto.Keypair.MlKem768PublicKey as Public
use evnx_crypto.Keypair.PrivateKey.{decrypt_private_key}
use evnx_crypto.Keypair.Types.{hkdf_info_private_key_enc}
use evnx_crypto.Passwords.{
  PasswordCollision, SubkeyCollision, SealCollision, private_key_under_both, vault_key_under_both,
}
use evnx_crypto.Tests.Data.{vk, kp, salt, password, sealed_seed}
use evnx_crypto.Tests.Toy.{crates, fit}
use evnx_crypto.Tests.ToyLaws.{aead-IsAead, hkdf-IsHkdf, mlkem-IsMlKem, x25519-IsX25519}
use evnx_crypto.Vault.Open.{hkdf_info_vault_key_wrap_mk, unwrap_vault_key_with_master_key}
use evnx_crypto.Vault.VaultKey
use evnx_crypto.Zeroize.SecretArray

abbrev other_password : Text
other_password = ascii "battery staple"

abbrev master : Text → MasterKey
master p = record { bytes = fit 32 (p ++ salt) }

derived_by_code : derive_master_key crates password salt ≡ ok (master password)
unfolding derive_master_key
derived_by_code = refl

other_derived_by_code : derive_master_key crates other_password salt ≡ ok (master other_password)
unfolding derive_master_key
other_derived_by_code = refl

other_input : ¬ ((password ≡ other_password) × (salt ≡ salt))
other_input e = let same = e.0 in cc

opened_by_code : decrypt_private_key crates sealed_seed (master password) ≡ ok kp
unfolding decrypt_private_key new_xchacha_cipher_from_nonce key_bytes MasterKey.expose
    derive_x25519_from_ed25519_seed derive_mlkem_from_ed25519_seed Public.from_bytes
    SecretArray.zeroed SecretArray.expose_mut SecretArray.into_inner SecretArray.expose
opened_by_code = refl

other_opened_by_code : decrypt_private_key crates sealed_seed (master other_password) ≡ ok kp
unfolding decrypt_private_key new_xchacha_cipher_from_nonce key_bytes MasterKey.expose
    derive_x25519_from_ed25519_seed derive_mlkem_from_ed25519_seed Public.from_bytes
    SecretArray.zeroed SecretArray.expose_mut SecretArray.into_inner SecretArray.expose
other_opened_by_code = refl

private_key_under_both_example :
    PasswordCollision crates password salt other_password salt (master password)
    ⊎ SubkeyCollision crates hkdf_info_private_key_enc (master password) (master other_password)
    ⊎ SealCollision crates hkdf_info_private_key_enc
        (master password)
        (master other_password)
        sealed_seed.nonce
        kp.ed25519_private_seed
        kp.ed25519_private_seed
        sealed_seed.ciphertext
private_key_under_both_example =
    private_key_under_both crates password salt other_password salt other_input derived_by_code
      other_derived_by_code sealed_seed aead-IsAead hkdf-IsHkdf mlkem-IsMlKem x25519-IsX25519
      opened_by_code other_opened_by_code

abbrev wrapped : Bytes
wrapped = replicate 24 (to_byte 3) ++ (vk.bytes ++ take 16 (ascii "evnx-vault-key-wrap-mk-v1"))

unwrapped_by_code : unwrap_vault_key_with_master_key crates wrapped (master password) ≡ ok vk
unfolding unwrap_vault_key_with_master_key hkdf_subkey SecretArray.expose MasterKey.expose
    VaultKey.from_bytes
unwrapped_by_code = refl

other_unwrapped_by_code :
    unwrap_vault_key_with_master_key crates wrapped (master other_password) ≡ ok vk
unfolding unwrap_vault_key_with_master_key hkdf_subkey SecretArray.expose MasterKey.expose
    VaultKey.from_bytes
other_unwrapped_by_code = refl

vault_key_under_both_example :
    PasswordCollision crates password salt other_password salt (master password)
    ⊎ SubkeyCollision crates hkdf_info_vault_key_wrap_mk (master password) (master other_password)
    ⊎ SealCollision crates hkdf_info_vault_key_wrap_mk
        (master password)
        (master other_password)
        (take 24 wrapped)
        vk.bytes
        vk.bytes
        (drop 24 wrapped)
vault_key_under_both_example =
    vault_key_under_both crates password salt other_password salt other_input derived_by_code
      other_derived_by_code wrapped aead-IsAead hkdf-IsHkdf unwrapped_by_code
      other_unwrapped_by_code
