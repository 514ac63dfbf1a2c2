-- ===== src/Keypair/Hybrid.antt =====
-- The hybrid combiner of src/keypair.rs.
use evnx_crypto.Base.{◌++◌}
use evnx_crypto.Base.Bytes.{Bytes}
use evnx_crypto.Crates.{Crates}
use evnx_crypto.Errors.{Result}
use evnx_crypto.Kdf.{hkdf_subkey}
use evnx_crypto.Keypair.Types.{hkdf_info_vault_key_wrap}
use evnx_crypto.Zeroize.{zeroize_slice}
use evnx_crypto.Zeroize.SecretArray.{SecretArray}

-- The two secrets, the ML-KEM ciphertext and the two X25519 public keys, in this order.
unfoldable pub hybrid_ikm : Bytes → Bytes → Bytes → Bytes → Bytes → Bytes
hybrid_ikm ss_mlkem ss_x25519 mlkem_ciphertext eph_pub recipient_x25519_pub =
    ss_mlkem ++ (ss_x25519 ++ (mlkem_ciphertext ++ (eph_pub ++ recipient_x25519_pub)))

-- The wrap key, and what the buffer of the concatenation holds when its memory is released.
unfoldable pub hybrid_wrap_key :
    Crates → Bytes → Bytes → Bytes → Bytes → Bytes → Result SecretArray × Bytes
unfolding zeroize_slice
hybrid_wrap_key c ss_mlkem ss_x25519 mlkem_ciphertext eph_pub recipient_x25519_pub =
    let ikm = hybrid_ikm ss_mlkem ss_x25519 mlkem_ciphertext eph_pub recipient_x25519_pub in
    let key = hkdf_subkey c ikm hkdf_info_vault_key_wrap in (key, zeroize_slice c ikm)
