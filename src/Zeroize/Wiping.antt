-- ===== src/Zeroize/Wiping.antt =====
-- What the secret types of src/zeroize.rs leave behind and what they print.
use evnx_crypto.Base.Bytes.{zeros}
use evnx_crypto.Base.{◌≡◌, refl, length, length-replicate}
use evnx_crypto.Crates.Coding.{IsWiping}
use evnx_crypto.Crates.{Crates}
use evnx_crypto.Zeroize.SecretArray
use evnx_crypto.Zeroize.SecretArray.{SecretArray}
use evnx_crypto.Zeroize.SecretBytes
use evnx_crypto.Zeroize.SecretBytes.{SecretBytes}

-- With a `zeroize` that behaves as documented: taking the bytes out of a secret array gives its
-- bytes and leaves an array of as many zeros, whose drop releases zeros.
into_inner_wipes :
    (c : Crates) (s : SecretArray)
    → IsWiping c.zeroize
    → let (out, left) = SecretArray.into_inner c s in
      (out ≡ s.bytes)
      × (left.bytes ≡ zeros (length s.bytes))
      × (SecretArray.drop c left ≡ zeros (length s.bytes))
unfolding SecretArray.into_inner SecretArray.drop
into_inner_wipes c s w = (
  refl,
  w.zeroize-zeros s.bytes,
  rw (w.zeroize-zeros s.bytes, w.zeroize-zeros (zeros (length s.bytes)), length-replicate),
)

-- Two secret byte buffers of the same length print the same, by `Debug` and by `Display`.
debug-eq_of_length :
    (s t : SecretBytes)
    → SecretBytes.len s ≡ SecretBytes.len t
    → (SecretBytes.debug s ≡ SecretBytes.debug t) × (SecretBytes.display s ≡ SecretBytes.display t)
unfolding SecretBytes.debug SecretBytes.display SecretBytes.len
debug-eq_of_length s t h = (rw h, refl)
