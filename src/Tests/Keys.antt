-- ===== src/Tests/Keys.antt =====
-- The theorems about keypairs and shared vault keys at concrete inputs.
use evnx_crypto.Base.Bytes.{Bytes, to_byte, zeros, Byte-eq}
use evnx_crypto.Base.Outcome.{ok}
use evnx_crypto.Base.{ℕ, ◌≡◌, ◌≢◌, arith, refl, ap, some, [], length, replicate}
use evnx_crypto.Crates.Kem.{Decapsulates}
use evnx_crypto.Crates.{Rng}
use evnx_crypto.Kdf.MasterKey
use evnx_crypto.Kdf.{hkdf_subkey}
use evnx_crypto.Keypair.Cipher.{key_bytes, new_xchacha_cipher_from_nonce}
use evnx_crypto.Keypair.Derive.{derive_x25519_from_ed25519_seed, derive_mlkem_from_ed25519_seed}
use evnx_crypto.Keypair.Generate.{generate_keypair, encrypt_private_key}
use evnx_crypto.Keypair.Hybrid.{hybrid_ikm, hybrid_wrap_key}
use evnx_crypto.Keypair.Laws.Acceptance.{IsWrapFor, unwrap-IsWrapFor}
use evnx_crypto.Keypair.Laws.Identity.{IsUserKeypair, generate_keypair_total}
use evnx_crypto.Keypair.Laws.Seal.{
  IsSealCipher, encrypt_then_decrypt_private_key, decrypt_private_key-IsUserKeypair,
}
use evnx_crypto.Keypair.Laws.Seed.{generate_then_restore}
use evnx_crypto.Keypair.Laws.Share.{WrapsFrom, wrap_for_user_then_unwrap}
use evnx_crypto.Keypair.Laws.Transcript.{hybrid_ikm-injective}
use evnx_crypto.Keypair.Laws.Transplant.{SealsUnder, transplanted_wrap}
use evnx_crypto.Keypair.MlKem768PublicKey as Public
use evnx_crypto.Keypair.PrivateKey.{decrypt_private_key}
use evnx_crypto.Keypair.TestSupport.{from_ed25519_seed_for_test}
use evnx_crypto.Keypair.Types.{UserKeypair, EncryptedPrivateKey, WrappedVaultKey}
use evnx_crypto.Keypair.Unwrap.{mlkem_decapsulate, unwrap_vault_key}
use evnx_crypto.Keypair.UserKeypair as Own
use evnx_crypto.Keypair.Wrap.{wrap_vault_key_for_user}
use evnx_crypto.Tests.Data.{vk, mk, seed, kp, shared_wrap, sealed_seed}
use evnx_crypto.Tests.Toy.{crates, head, point_bytes}
use evnx_crypto.Tests.ToyLaws.{
  mlkem-Decapsulates, aead-IsAead, rand-IsFilling, hkdf-IsHkdf, ed25519-IsEd25519, x25519-IsX25519,
  mlkem-IsMlKem,
}
use evnx_crypto.Vault.VaultKey
use evnx_crypto.Vault.VaultKey.{VaultKey}
use evnx_crypto.Zeroize.SecretArray

pub kp-IsUserKeypair : IsUserKeypair crates kp
unfolding derive_x25519_from_ed25519_seed derive_mlkem_from_ed25519_seed Public.from_bytes
    SecretArray.zeroed SecretArray.expose_mut SecretArray.into_inner SecretArray.expose
kp-IsUserKeypair = record {
  seed_length = refl;
  ed25519_public_eq = refl;
  x25519_derived = refl;
  x25519_length = refl;
  x25519_public_eq = refl;
  mlkem_derived = refl;
  mlkem_public_eq = refl;
}

-- Decapsulation is correct for every draw.
pub wraps : (u : UserKeypair crates) (g : Rng crates) → WrapsFrom crates g u
wraps u g =
    mlkem-Decapsulates u.mlkem_decap
      (crates.rand.fill_bytes 32 (crates.x25519.random_from_rng g).1).0

-- The concrete KEM is correct at every draw that the examples use.
pub kem_correct : Decapsulates crates.mlkem kp.mlkem_decap (replicate 32 (to_byte 4))
kem_correct = ap (λ b. some (replicate 32 b)) (Byte-eq (to_byte 260) (to_byte 4) refl)

wrap_for_user_then_unwrap_example :
    (w : WrappedVaultKey) × (g' : ℕ) × (wrap_vault_key_for_user crates vk
        (Own.public_keys crates kp)
        3
      ≡ (ok w, g'))
    × (length w.eph_pub_key ≡ 32)
    × (length w.mlkem_ciphertext ≡ 1088)
    × (length w.encrypted_vault_key ≡ 72)
    × (unwrap_vault_key crates w kp ≡ ok vk)
wrap_for_user_then_unwrap_example =
    wrap_for_user_then_unwrap crates vk kp 3 aead-IsAead hkdf-IsHkdf rand-IsFilling x25519-IsX25519
      mlkem-IsMlKem kp-IsUserKeypair refl kem_correct

pub unwrapped_by_code : unwrap_vault_key crates shared_wrap kp ≡ ok vk
unfolding unwrap_vault_key mlkem_decapsulate hybrid_wrap_key hybrid_ikm hkdf_subkey
    new_xchacha_cipher_from_nonce key_bytes VaultKey.from_bytes SecretArray.expose
unwrapped_by_code = refl

unwrap-IsWrapFor_example : IsWrapFor crates shared_wrap kp vk
unwrap-IsWrapFor_example =
    unwrap-IsWrapFor crates shared_wrap kp aead-IsAead hkdf-IsHkdf mlkem-IsMlKem unwrapped_by_code

hybrid_ikm-injective_example :
    (seed ≡ seed) × (seed ≡ seed) × (zeros 1088 ≡ zeros 1088) × (seed ≡ seed) × (seed ≡ seed)
hybrid_ikm-injective_example =
    hybrid_ikm-injective seed seed seed seed (zeros 1088) (zeros 1088) seed seed seed seed refl refl
      refl refl refl refl refl refl refl

encrypt_then_decrypt_private_key_example :
    (enc : EncryptedPrivateKey) × (g' : ℕ) × (encrypt_private_key crates kp mk 3 ≡ (ok enc, g'))
    × (length enc.nonce ≡ 24)
    × (length enc.ciphertext ≡ 48)
    × (decrypt_private_key crates enc mk ≡ ok kp)
encrypt_then_decrypt_private_key_example =
    encrypt_then_decrypt_private_key crates kp mk 3 aead-IsAead hkdf-IsHkdf rand-IsFilling
      x25519-IsX25519 kp-IsUserKeypair

opened_by_code : decrypt_private_key crates sealed_seed mk ≡ ok kp
unfolding decrypt_private_key new_xchacha_cipher_from_nonce key_bytes MasterKey.expose
    derive_x25519_from_ed25519_seed derive_mlkem_from_ed25519_seed Public.from_bytes
    SecretArray.zeroed SecretArray.expose_mut SecretArray.into_inner SecretArray.expose
opened_by_code = refl

decrypt_private_key-IsUserKeypair_example :
    IsUserKeypair crates kp
    × (k : crates.xchacha.Cipher) × IsSealCipher crates mk k
    × (crates.xchacha.encrypt k sealed_seed.nonce [] kp.ed25519_private_seed
        ≡ some sealed_seed.ciphertext)
decrypt_private_key-IsUserKeypair_example =
    decrypt_private_key-IsUserKeypair crates sealed_seed mk aead-IsAead hkdf-IsHkdf mlkem-IsMlKem
      x25519-IsX25519 opened_by_code

generate_keypair_total_example :
    (k : UserKeypair crates) × (g' : ℕ) × (generate_keypair crates 3 ≡ (ok k, g'))
    × IsUserKeypair crates k
generate_keypair_total_example =
    generate_keypair_total crates 3 hkdf-IsHkdf mlkem-IsMlKem ed25519-IsEd25519 x25519-IsX25519

generated_by_code : generate_keypair crates 5 ≡ (ok kp, 6)
unfolding generate_keypair derive_x25519_from_ed25519_seed derive_mlkem_from_ed25519_seed
    Public.from_bytes SecretArray.zeroed SecretArray.expose_mut SecretArray.into_inner
    SecretArray.expose
generated_by_code = refl

generate_then_restore_example : from_ed25519_seed_for_test crates kp.ed25519_private_seed ≡ ok kp
generate_then_restore_example =
    generate_then_restore crates 5 hkdf-IsHkdf mlkem-IsMlKem ed25519-IsEd25519 x25519-IsX25519
      generated_by_code

-- The same sealed key behind another ephemeral key.
abbrev moved_wrap : WrappedVaultKey
moved_wrap = record {
  eph_pub_key = point_bytes (to_byte 4, to_byte 1);
  mlkem_ciphertext = shared_wrap.mlkem_ciphertext;
  encrypted_vault_key = shared_wrap.encrypted_vault_key;
}

moved_by_code : unwrap_vault_key crates moved_wrap kp ≡ ok vk
unfolding unwrap_vault_key mlkem_decapsulate hybrid_wrap_key hybrid_ikm hkdf_subkey
    new_xchacha_cipher_from_nonce key_bytes VaultKey.from_bytes SecretArray.expose
moved_by_code = refl

moved_elsewhere : shared_wrap.eph_pub_key ≢ moved_wrap.eph_pub_key
moved_elsewhere e = let digit : 3 ≡ 4 = ap (λ b. (head b).0) e in omega (arith, digit)

transplanted_wrap_example :
    (ikm : Bytes) × (ikm' : Bytes) × (ikm ≢ ikm')
    × SealsUnder crates ikm shared_wrap.encrypted_vault_key vk
    × SealsUnder crates ikm' shared_wrap.encrypted_vault_key vk
transplanted_wrap_example =
    transplanted_wrap crates shared_wrap moved_wrap kp kp aead-IsAead hkdf-IsHkdf mlkem-IsMlKem
      x25519-IsX25519 kp-IsUserKeypair kp-IsUserKeypair refl refl refl (λ p. moved_elsewhere p.0)
      unwrapped_by_code moved_by_code
