-- ===== src/Errors.antt =====
-- src/errors.rs: the one error type of the crate, and the texts that `thiserror` derives for it.
use evnx_crypto.Base.{String, ◌<>◌}
use evnx_crypto.Base.Outcome.{Outcome}

pub data CryptoError : Type 0 where
  kdf : String → CryptoError
  encryption decryption integrity_check key_wrap key_unwrap : CryptoError
  invalid_input : String → CryptoError
  invalid_public_key : CryptoError
  srp : String → CryptoError

-- `Result<A, CryptoError>`, with the panic that Rust leaves out of the type.
abbrev pub Result {ℓ} : Type ℓ → Type ℓ
Result A = Outcome CryptoError A

-- `Display` of the error.
unfoldable pub to_string : CryptoError → String
to_string (kdf message) = "Key derivation failed: " <> message
to_string encryption = "Encryption failed"
to_string decryption = "Decryption failed — wrong key or tampered data"
to_string integrity_check = "Integrity check failed — ciphertext hash mismatch"
to_string key_wrap = "Key wrap failed"
to_string key_unwrap = "Key unwrap failed — wrong key or tampered wrapped key"
to_string (invalid_input message) = "Invalid input: " <> message
to_string invalid_public_key =
    "Invalid public key — non-contributory ECDH, possible key-substitution attack"
to_string (srp message) = "SRP error: " <> message
