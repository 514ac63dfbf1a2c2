-- ===== src/Zeroize.antt =====
-- src/zeroize.rs: buffers that are wiped when they are dropped. A value is its bytes; a `drop`
-- gives what the buffer holds when its memory is released.
pub mod SecretBytes
pub mod SecretString
pub mod SecretArray
pub mod Wiping
pub mod Released
use evnx_crypto.Base.Bytes.{Bytes}
use evnx_crypto.Crates.{Crates}

-- What the slice holds afterwards.
unfoldable pub zeroize_slice : Crates → Bytes → Bytes
zeroize_slice c buf = c.zeroize.zeroize buf
