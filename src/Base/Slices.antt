-- ===== src/Base/Slices.antt =====
-- The operations of Rust on slices that panic where the length does not fit.
use Prim.Native.Nat.{ℕ}
use evnx_crypto.Base.Bytes.{Bytes}
use evnx_crypto.Base.Lists.{length, take, drop}
use evnx_crypto.Base.Outcome.{Outcome, ok, ◌>>◌, assert}
use evnx_crypto.Base.Tests.{leb, ◌==◌}

module _ {ℓ} {E : Type ℓ} where
  -- `dst.copy_from_slice(src)` into an array of `n` bytes.
  abbrev pub copy_from_slice : ℕ → Bytes → Outcome E Bytes
  copy_from_slice n src = do assert (length src == n); ok src

  -- `GenericArray::from_slice` at the length `n`, as `Key` and `Nonce` use it.
  abbrev pub from_slice : ℕ → Bytes → Outcome E Bytes
  from_slice n src = do assert (length src == n); ok src

  -- `&bytes[..n]`
  abbrev pub slice_to : ℕ → Bytes → Outcome E Bytes
  slice_to n bytes = do assert (leb n (length bytes)); ok (take n bytes)

  -- `&bytes[n..]`
  abbrev pub slice_from : ℕ → Bytes → Outcome E Bytes
  slice_from n bytes = do assert (leb n (length bytes)); ok (drop n bytes)
