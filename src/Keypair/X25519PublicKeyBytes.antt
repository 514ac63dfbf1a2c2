-- ===== src/Keypair/X25519PublicKeyBytes.antt =====
-- The wire form of `X25519PublicKeyBytes` in src/keypair.rs.
use evnx_crypto.Base.Bytes.{Text}
use evnx_crypto.Base.Outcome.{map}
use evnx_crypto.Crates.{Crates}
use evnx_crypto.Encoding.{b64_encode, b64_decode_array}
use evnx_crypto.Errors.{Result}
use evnx_crypto.Keypair.Types.{X25519PublicKeyBytes, x25519_public_len}

module _ (c : Crates) where
  unfoldable pub to_base64 : X25519PublicKeyBytes → Text
  to_base64 k = b64_encode c k.bytes

  unfoldable pub from_base64 : Text → Result X25519PublicKeyBytes
  from_base64 s =
      map (λ b. record { bytes = b }) (b64_decode_array c x25519_public_len s "x25519_public_key")
