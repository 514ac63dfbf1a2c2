-- ===== src/Zeroize/Released.antt =====
-- What `ZeroizeOnDrop` leaves of a value: the memory of its fields when it is released.
use evnx_crypto.Base.Bytes.{Bytes}

-- `buffer` is the memory of a field that the drop reaches, and `skipped` that of a field which
-- `#[zeroize(skip)]` keeps from it. Public keys, which are skipped too, are left out.
pub data Released : Type 0 where
  buffer skipped : Bytes → Released
