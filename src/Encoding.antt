-- ===== src/Encoding.antt =====
-- src/encoding.rs: the base64 wire format. `what` names the value in an error message.
pub mod Wire
use evnx_crypto.Base.{ℕ, String, ◌<>◌, length, ◌==◌, not}
use evnx_crypto.Base.Bytes.{Bytes, Text}
use evnx_crypto.Base.Decimal.{decimal}
use evnx_crypto.Base.Outcome.{◌>>=◌, ◌>>◌, fail_if, or_err}
use evnx_crypto.Base.Slices.{copy_from_slice}
use evnx_crypto.Crates.{Crates}
use evnx_crypto.Errors.{Result, invalid_input}

module _ (c : Crates) where
  unfoldable pub b64_encode : Bytes → Text
  b64_encode bytes = c.base64.encode bytes

  unfoldable pub b64_decode : Text → String → Result Bytes
  b64_decode s what = or_err (c.base64.decode s) (invalid_input (what <> ": invalid base64"))

  -- The const parameter `N` comes first.
  unfoldable pub b64_decode_array : ℕ → Text → String → Result Bytes
  b64_decode_array n s what = do
    bytes ← b64_decode s what
    fail_if (not (length bytes == n)) (
        invalid_input
          (what <> ": expected " <> decimal n <> " bytes, got " <> decimal (length bytes)))
    copy_from_slice n bytes
