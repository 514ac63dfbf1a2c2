-- ===== src/Encoding/Wire.antt =====
-- Proofs about src/encoding.rs.
use evnx_crypto.Base.{ℕ, String, ◌≡◌, ◌≢◌, ◌↔◌, some, length, arith}
use evnx_crypto.Base.Bytes.{Bytes, Text}
use evnx_crypto.Base.Outcome.{ok}
use evnx_crypto.Crates.{Crates}
use evnx_crypto.Crates.Coding.{IsBase64}
use evnx_crypto.Encoding.{b64_encode, b64_decode, b64_decode_array}

module _ (c : Crates) where
  pub b64_decode-b64_encode :
      (bytes : Bytes) (what : String)
      → IsBase64 c.base64
      → b64_decode c (b64_encode c bytes) what ≡ ok bytes
  unfolding b64_decode b64_encode
  b64_decode-b64_encode bytes what b = rw b.decode-encode

  pub b64_decode_array-b64_encode :
      (n : ℕ) (bytes : Bytes) (what : String)
      → IsBase64 c.base64
      → length bytes ≡ n
      → b64_decode_array c n (b64_encode c bytes) what ≡ ok bytes
  unfolding b64_decode_array
  b64_decode_array-b64_encode n bytes what b h =
      rw (b64_decode-b64_encode bytes what b) (ground arith)

  -- Decoding a text to an array of a given length gives these bytes if and only if the text is
  -- base64 of them and they have that length.
  b64_decode_array-eq_ok_iff :
      (n : ℕ) (s : Text) (what : String) (bytes : Bytes)
      → (b64_decode_array c n s what ≡ ok bytes)
        ↔ ((c.base64.decode s ≡ some bytes) × (length bytes ≡ n))
  unfolding b64_decode_array b64_decode
  b64_decode_array-eq_ok_iff n s what bytes = (λ h. ground arith, λ (e, h). rw e (ground arith))

  -- Two texts that are base64 of equally many bytes, but not of as many as the array has, decode to
  -- the same error: it does not show the bytes.
  b64_decode_array-eq_of_length :
      (n : ℕ) (s t : Text) (what : String) {xs ys : Bytes}
      → c.base64.decode s ≡ some xs
      → c.base64.decode t ≡ some ys
      → length xs ≢ n
      → length xs ≡ length ys
      → b64_decode_array c n s what ≡ b64_decode_array c n t what
  unfolding b64_decode_array b64_decode
  b64_decode_array-eq_of_length n s t what d e h k = rw (d, e) (ground arith)
