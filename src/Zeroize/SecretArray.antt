-- ===== src/Zeroize/SecretArray.antt =====
-- `SecretArray<N>` of src/zeroize.rs. The length `N` of the type is the length of the bytes.
use evnx_crypto.Base.Bytes.{Bytes, zeros}
use evnx_crypto.Base.Decimal.{decimal}
use evnx_crypto.Base.{ℕ, String, ◌<>◌, length}
use evnx_crypto.Crates.{Crates}

pub record SecretArray : Type 0 where
  pub bytes : Bytes

unfoldable pub new : Bytes → SecretArray
new arr = record { bytes = arr }

unfoldable pub zeroed : ℕ → SecretArray
zeroed n = record { bytes = zeros n }

unfoldable pub expose : SecretArray → Bytes
expose s = s.bytes

-- What a writer through `expose_mut` leaves in the buffer.
unfoldable pub expose_mut : SecretArray → Bytes → SecretArray
expose_mut s written = record { bytes = written }

-- `AsRef<[u8]>`
unfoldable pub as_ref : SecretArray → Bytes
as_ref s = s.bytes

unfoldable pub debug : SecretArray → String
debug s = "SecretArray<" <> decimal (length s.bytes) <> ">([REDACTED])"

-- `Drop`: what the buffer holds when its memory is released.
unfoldable pub drop : Crates → SecretArray → Bytes
drop c s = c.zeroize.zeroize s.bytes

-- The bytes that are handed over, and the wrapper that is left to be dropped.
unfoldable pub into_inner : Crates → SecretArray → Bytes × SecretArray
into_inner c s = let out = s.bytes in (out, record s { bytes = c.zeroize.zeroize s.bytes })
