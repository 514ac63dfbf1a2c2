-- ===== src/Keypair/Ed25519PublicKey.antt =====
-- The wire form of `Ed25519PublicKey` in src/keypair.rs.
use evnx_crypto.Base.Bytes.{Text}
use evnx_crypto.Base.Outcome.{map}
use evnx_crypto.Crates.{Crates}
use evnx_crypto.Encoding.{b64_encode, b64_decode_array}
use evnx_crypto.Errors.{Result}
use evnx_crypto.Keypair.Types.{Ed25519PublicKey}

module _ (c : Crates) where
  unfoldable pub to_base64 : Ed25519PublicKey → Text
  to_base64 k = b64_encode c k.bytes

  unfoldable pub from_base64 : Text → Result Ed25519PublicKey
  from_base64 s = map (λ b. record { bytes = b }) (b64_decode_array c 32 s "ed25519_public_key")
