-- ===== src/Keypair/Derive.antt =====
-- The keys that src/keypair.rs derives from the Ed25519 seed.
use evnx_crypto.Base.Bytes.{Bytes, ascii}
use evnx_crypto.Base.Outcome.{ok, ◌>>=◌, or_err}
use evnx_crypto.Crates.{Crates}
use evnx_crypto.Errors.{CryptoError, Result}
use evnx_crypto.Keypair.MlKem768PublicKey as Public
use evnx_crypto.Keypair.Types.{
  MlKem768PublicKey, x25519_private_len, mlkem_seed_len, hkdf_info_mlkem_derive,
}
use evnx_crypto.Zeroize.SecretArray

module _ (c : Crates) where
  unfoldable pub derive_x25519_from_ed25519_seed : Bytes → Result Bytes
  unfolding SecretArray.zeroed SecretArray.expose_mut SecretArray.into_inner
  derive_x25519_from_ed25519_seed ed25519_seed = do
    let hkdf = c.hkdf.extract ed25519_seed
    let x25519_private = SecretArray.zeroed x25519_private_len
    written ←
        or_err (c.hkdf.expand hkdf (ascii "evnx-x25519-from-ed25519-v1") x25519_private_len)
          (CryptoError.kdf "HKDF expand failed for X25519 derivation")
    ok (SecretArray.into_inner c (SecretArray.expose_mut x25519_private written)).0

  unfoldable pub derive_mlkem_from_ed25519_seed :
      Bytes → Result (c.mlkem.DecapsulationKey × MlKem768PublicKey)
  unfolding SecretArray.zeroed SecretArray.expose_mut SecretArray.expose
  derive_mlkem_from_ed25519_seed ed25519_seed = do
    let hkdf = c.hkdf.extract ed25519_seed
    let mlkem_seed = SecretArray.zeroed mlkem_seed_len
    written ←
        or_err (c.hkdf.expand hkdf hkdf_info_mlkem_derive mlkem_seed_len)
          (CryptoError.kdf "HKDF expand failed for ML-KEM derivation")
    let seed = SecretArray.expose (SecretArray.expose_mut mlkem_seed written)
    let decap = c.mlkem.from_seed seed
    public ← Public.from_bytes (c.mlkem.to_bytes (c.mlkem.encapsulation_key decap))
    ok (decap, public)
