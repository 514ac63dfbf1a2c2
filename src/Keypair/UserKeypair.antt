-- ===== src/Keypair/UserKeypair.antt =====
-- The public methods of `UserKeypair` in src/keypair.rs.
use evnx_crypto.Base.Bytes.{Text}
use evnx_crypto.Base.{List, [], ◌∷◌}
use evnx_crypto.Crates.{Crates}
use evnx_crypto.Keypair.Ed25519PublicKey
use evnx_crypto.Keypair.MlKem768PublicKey
use evnx_crypto.Keypair.Types.{UserKeypair, UserPublicKeys}
use evnx_crypto.Keypair.X25519PublicKeyBytes
use evnx_crypto.Zeroize.Released.{Released, buffer}

module _ (c : Crates) where
  unfoldable pub public_keys : UserKeypair c → UserPublicKeys
  public_keys kp = record { x25519 = kp.x25519_public; mlkem = kp.mlkem_public }

  unfoldable pub ed25519_public_base64 : UserKeypair c → Text
  ed25519_public_base64 kp = Ed25519PublicKey.to_base64 c kp.ed25519_public

  unfoldable pub mlkem_public_base64 : UserKeypair c → Text
  mlkem_public_base64 kp = MlKem768PublicKey.to_base64 c kp.mlkem_public

  unfoldable pub x25519_public_base64 : UserKeypair c → Text
  x25519_public_base64 kp = X25519PublicKeyBytes.to_base64 c kp.x25519_public

  -- The drop that `ZeroizeOnDrop` derives: what the memory of the three private fields holds when it
  -- is released. The ML-KEM key has a drop of its own, in its crate.
  unfoldable pub drop : UserKeypair c → List Released
  drop kp =
      buffer (c.zeroize.zeroize kp.ed25519_private_seed)
      ∷ buffer (c.zeroize.zeroize kp.x25519_private)
      ∷ buffer (c.mlkem.drop kp.mlkem_decap)
      ∷ []
