-- ===== src/Crates/Coding.antt =====
-- The text encodings of `base64ct` (standard alphabet, padded) and of `hex`, the hash of `blake3`,
-- and the wiping of `zeroize`.
use evnx_crypto.Base.Bytes.{Bytes, Text, zeros}
use evnx_crypto.Base.{◌+◌, ◌*◌, ◌/◌, ◌≡◌, Option, some, length}

-- `encode` and `decode` of either crate.
pub record Codec : Type 0 where
  pub encode : Bytes → Text
  pub decode : Text → Option Bytes

-- `Base64::encode_string` and `Base64::decode_vec`.
pub record IsBase64 (b : Codec) : Type 0 where
  pub decode-encode : (bytes : Bytes) → b.decode (b.encode bytes) ≡ some bytes
  -- Each three bytes, and each begun three, give four characters.
  pub length-encode : (bytes : Bytes) → length (b.encode bytes) ≡ 4 * ((length bytes + 2) / 3)

-- `hex::encode` and `hex::decode`.
pub record IsHex (h : Codec) : Type 0 where
  pub decode-encode : (bytes : Bytes) → h.decode (h.encode bytes) ≡ some bytes

pub record Blake3 : Type 1 where
  pub Hash : Type 0
  pub hash : Bytes → Hash
  pub to_hex : Hash → Text

-- `Zeroize::zeroize` on a buffer: what the buffer holds afterwards.
pub record Zeroize : Type 0 where
  pub zeroize : Bytes → Bytes

pub record IsWiping (z : Zeroize) : Type 0 where
  pub zeroize-zeros : (buffer : Bytes) → z.zeroize buffer ≡ zeros (length buffer)
