-- ===== src/Tests/Restored.antt =====
-- A wrapped vault key at a concrete session.
use evnx_crypto.Base.Bytes.{Bytes, ascii, to_byte, zeros}
use evnx_crypto.Base.Outcome.{ok}
use evnx_crypto.Base.{ℕ, List, [], ◌∷◌, ◌++◌, ◌≡◌, refl, arith, replicate, take}
use evnx_crypto.Encoding.{b64_decode_array, b64_decode}
use evnx_crypto.Kdf
use evnx_crypto.Kdf.MasterKey
use evnx_crypto.Tests.Data.{id, plaintext, password}
use evnx_crypto.Tests.Machine.{null_pointer}
use evnx_crypto.Tests.Toy.{crates, encode, tag}
use evnx_crypto.Tests.ToyLaws.{
  argon2-IsArgon2, ed25519-IsEd25519, aead-IsAead, rand-IsFilling, hkdf-IsHkdf, x25519-IsX25519,
  mlkem-IsMlKem, zeroize-IsWiping,
}
use evnx_crypto.Vault.Identity.{vault_aad}
use evnx_crypto.Vault.Seal
use evnx_crypto.Vault.VaultKey
use evnx_crypto.Wasm.Calls
use evnx_crypto.Wasm.Draws
use evnx_crypto.Wasm.Machine.Memory.{Memory, Call, Reply, fresh}
use evnx_crypto.Wasm.Machine.Restored.{restored_key_opens}
use evnx_crypto.Wasm.Machine.Run.{run, run_all}
use evnx_crypto.Zeroize.SecretArray

abbrev keys : List Call
keys = Call.derive_master_key password (encode (zeros 32)) ∷ Call.create_vault_key ∷ []

abbrev start : Memory crates
start = run_all crates null_pointer keys (fresh crates 3)

abbrev sealing : Memory crates
sealing = (run crates null_pointer start (Call.encrypt_vault plaintext 0 id 7)).1

-- The vault key is destroyed once it is wrapped.
abbrev later : Memory crates
later =
    run_all crates null_pointer (Call.destroy_vault_key 0 ∷ [])
      (run crates null_pointer (run_all crates null_pointer [] sealing) (Call.wrap_vault_key 0 0)).1

abbrev blob : Bytes
blob = replicate 12 (to_byte 4) ++ (plaintext ++ tag (replicate 32 (to_byte 3)) (vault_aad id 7))

abbrev wrapped : Bytes
wrapped =
    replicate 24 (to_byte 5)
    ++ (replicate 32 (to_byte 3) ++ take 16 (ascii "evnx-vault-key-wrap-mk-v1"))

sealed_by_code :
    (run crates null_pointer start (Call.encrypt_vault plaintext 0 id 7)).0 ≡ ok (Reply.bytes blob)
unfolding run_all run Draws.create_vault_key Draws.encrypt_vault VaultKey.generate VaultKey.expose
    Seal.encrypt_vault vault_aad Calls.derive_master_key Calls.salt_from_b64 Kdf.derive_master_key
    Kdf.salt_from_base64 b64_decode_array b64_decode
sealed_by_code = refl

wrapped_by_code :
    (run crates null_pointer (run_all crates null_pointer [] sealing) (Call.wrap_vault_key 0 0)).0
    ≡ ok (Reply.bytes wrapped)
unfolding run_all run Draws.create_vault_key Draws.encrypt_vault VaultKey.generate VaultKey.expose
    Seal.encrypt_vault vault_aad Calls.derive_master_key Calls.salt_from_b64 Kdf.derive_master_key
    Kdf.salt_from_base64 b64_decode_array b64_decode Draws.wrap_vault_key
    Seal.wrap_vault_key_with_master_key Kdf.hkdf_subkey MasterKey.expose SecretArray.expose
    SecretArray.expose_mut SecretArray.zeroed
wrapped_by_code = refl

restored_key_opens_example :
    (n : ℕ) × ((run crates null_pointer later (Call.unwrap_vault_key wrapped 0)).0
      ≡ ok (Reply.handle n))
    × ((run crates null_pointer
          (run crates null_pointer later (Call.unwrap_vault_key wrapped 0)).1
          (Call.decrypt_vault blob n id 7)).0
        ≡ ok (Reply.bytes plaintext))
restored_key_opens_example =
    restored_key_opens crates null_pointer argon2-IsArgon2 aead-IsAead aead-IsAead hkdf-IsHkdf
      ed25519-IsEd25519 x25519-IsX25519 mlkem-IsMlKem rand-IsFilling zeroize-IsWiping 3 keys []
      (Call.destroy_vault_key 0 ∷ []) plaintext 0 0 id 7 (omega arith) (omega arith) tt
      (ground arith, tt) sealed_by_code wrapped_by_code
