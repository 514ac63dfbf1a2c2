-- ===== src/Tests/Sized.antt =====
-- The size of a reply at a concrete session.
use evnx_crypto.Base.Bytes.{Bytes, to_byte}
use evnx_crypto.Base.Outcome.{ok}
use evnx_crypto.Base.{List, [], ◌∷◌, ◌++◌, ◌+◌, ◌≡◌, length, refl, replicate}
use evnx_crypto.Tests.Data.{id, plaintext}
use evnx_crypto.Tests.Machine.{null_pointer}
use evnx_crypto.Tests.Toy.{crates, tag}
use evnx_crypto.Tests.ToyLaws.{
  argon2-IsArgon2, ed25519-IsEd25519, aead-IsAead, base64-IsBase64, rand-IsFilling, hkdf-IsHkdf,
  x25519-IsX25519, mlkem-IsMlKem, zeroize-IsWiping,
}
use evnx_crypto.Vault.Identity.{vault_aad}
use evnx_crypto.Vault.Seal
use evnx_crypto.Vault.VaultKey
use evnx_crypto.Wasm.Draws
use evnx_crypto.Wasm.Machine.Memory.{fresh, Call, Reply}
use evnx_crypto.Wasm.Machine.Run.{run, run_all}
use evnx_crypto.Wasm.Machine.Sized.{replies-IsSized}

abbrev before : List Call
before = Call.create_vault_key ∷ []

abbrev blob : Bytes
blob = replicate 12 (to_byte 4) ++ (plaintext ++ tag (replicate 32 (to_byte 3)) (vault_aad id 7))

sealed_by_code :
    (run crates null_pointer
      (run_all crates null_pointer before (fresh crates 3))
      (Call.encrypt_vault plaintext 0 id 7)).0
    ≡ ok (Reply.bytes blob)
unfolding run_all run Draws.create_vault_key Draws.encrypt_vault VaultKey.generate VaultKey.expose
    Seal.encrypt_vault vault_aad
sealed_by_code = refl

replies-IsSized_example : length blob ≡ length plaintext + 28
replies-IsSized_example =
    replies-IsSized crates null_pointer argon2-IsArgon2 aead-IsAead aead-IsAead ed25519-IsEd25519
      x25519-IsX25519 mlkem-IsMlKem rand-IsFilling base64-IsBase64 3 before
      (Call.encrypt_vault plaintext 0 id 7) hkdf-IsHkdf zeroize-IsWiping sealed_by_code
