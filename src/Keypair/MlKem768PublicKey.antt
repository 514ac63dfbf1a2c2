-- ===== src/Keypair/MlKem768PublicKey.antt =====
-- The methods of `MlKem768PublicKey` in src/keypair.rs.
use evnx_crypto.Base.{Bool, String, ◌<>◌, length, not, ◌==◌}
use evnx_crypto.Base.Bytes.{Bytes, Text, bytes_eq}
use evnx_crypto.Base.Decimal.{decimal}
use evnx_crypto.Base.Outcome.{ok, ◌>>◌, fail_if, map}
use evnx_crypto.Crates.{Crates}
use evnx_crypto.Encoding.{b64_encode, b64_decode_array}
use evnx_crypto.Errors.{Result, invalid_input}
use evnx_crypto.Keypair.Types.{MlKem768PublicKey, mlkem768_public_len}

unfoldable pub as_bytes : MlKem768PublicKey → Bytes
as_bytes k = k.bytes

unfoldable pub from_bytes : Bytes → Result MlKem768PublicKey
from_bytes bytes = do
  fail_if (not (length bytes == mlkem768_public_len)) (
      invalid_input (
        "ML-KEM-768 public key must be "
        <> decimal mlkem768_public_len
        <> " bytes, got "
        <> decimal (length bytes)))
  ok (record { bytes = bytes })

-- `PartialEq`
unfoldable pub eq : MlKem768PublicKey → MlKem768PublicKey → Bool
eq k other = bytes_eq k.bytes other.bytes

-- `Debug`
unfoldable pub debug : MlKem768PublicKey → String
debug k = "MlKem768PublicKey(" <> decimal mlkem768_public_len <> " bytes)"

module _ (c : Crates) where
  unfoldable pub to_base64 : MlKem768PublicKey → Text
  to_base64 k = b64_encode c k.bytes

  unfoldable pub from_base64 : Text → Result MlKem768PublicKey
  from_base64 s =
      map (λ b. record { bytes = b }) (b64_decode_array c mlkem768_public_len s "mlkem_public_key")
