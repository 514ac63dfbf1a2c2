-- ===== src/Zeroize/SecretBytes.antt =====
-- `SecretBytes` of src/zeroize.rs: bytes on the heap, wiped when dropped.
use evnx_crypto.Base.Bytes.{Bytes}
use evnx_crypto.Base.Decimal.{decimal}
use evnx_crypto.Base.{ℕ, String, ◌<>◌, Bool, length, ◌==◌}
use evnx_crypto.Crates.{Crates}

pub record SecretBytes : Type 0 where
  pub bytes : Bytes

unfoldable pub new : Bytes → SecretBytes
new b = record { bytes = b }

-- The argument is a `Zeroizing<Vec<u8>>`, that is, its bytes.
unfoldable pub from_zeroizing : Bytes → SecretBytes
from_zeroizing z = record { bytes = z }

-- `From<Vec<u8>>` and `From<&[u8]>`. The second copies the slice, which stays as it is.
unfoldable pub from_vec : Bytes → SecretBytes
unfolding new
from_vec v = new v

unfoldable pub from_slice : Bytes → SecretBytes
unfolding new
from_slice s = new s

unfoldable pub len : SecretBytes → ℕ
len s = length s.bytes

unfoldable pub is_empty : SecretBytes → Bool
is_empty s = length s.bytes == 0

unfoldable pub as_ref : SecretBytes → Bytes
as_ref s = s.bytes

-- `fmt::Debug` and `fmt::Display`
unfoldable pub debug : SecretBytes → String
debug s = "SecretBytes([REDACTED " <> decimal (length s.bytes) <> " bytes])"

unfoldable pub display : SecretBytes → String
display s = "[REDACTED]"

-- What the buffer holds when its memory is released, by the drop of `Zeroizing`.
unfoldable pub drop : Crates → SecretBytes → Bytes
drop c s = c.zeroize.zeroize s.bytes
