-- ===== src/Crates/Sealing.antt =====
-- Authenticated encryption: the interface of `aes-gcm` and `chacha20poly1305`.
use evnx_crypto.Base.Bytes.{Bytes}
use evnx_crypto.Base.{◌+◌, ◌^◌, ◌≤◌, ◌≡◌, Option, some, length}

pub record Aead : Type 1 where
  pub Cipher : Type 0
  -- `KeyInit::new`, on a key whose length the type fixes, and `KeyInit::new_from_slice`.
  pub new : Bytes → Cipher
  pub new_from_slice : Bytes → Option Cipher
  -- The nonce, the associated data, and the message or ciphertext; the tag ends the ciphertext.
  -- A payload that is a plain slice has empty associated data.
  pub encrypt : Cipher → Bytes → Bytes → Bytes → Option Bytes
  pub decrypt : Cipher → Bytes → Bytes → Bytes → Option Bytes

-- What both ciphers document, with their keys of 32 bytes and their tags of 16. Encryption is a
-- function of the key, the nonce, the associated data and the message, and decryption accepts
-- exactly what it gives.
pub record IsAead (a : Aead) : Type 0 where
  pub new_from_slice_ok :
      (key : Bytes) → length key ≡ 32 → (k : a.Cipher) × (a.new_from_slice key ≡ some k)
  pub encrypt_ok :
      (k : a.Cipher) (nonce aad m : Bytes)
      → length aad ≤ 2 ^ 32
      → length m ≤ 2 ^ 32
      → (ct : Bytes) × (a.encrypt k nonce aad m ≡ some ct)
  pub length-encrypt :
      (k : a.Cipher) (nonce aad m ct : Bytes)
      → a.encrypt k nonce aad m ≡ some ct
      → length ct ≡ length m + 16
  pub decrypt-encrypt :
      (k : a.Cipher) (nonce aad m ct : Bytes)
      → a.encrypt k nonce aad m ≡ some ct
      → a.decrypt k nonce aad ct ≡ some m
  pub encrypt-decrypt :
      (k : a.Cipher) (nonce aad ct m : Bytes)
      → a.decrypt k nonce aad ct ≡ some m
      → a.encrypt k nonce aad m ≡ some ct
