-- ===== src/Tests/Machine.antt =====
-- The theorems about the memory that JavaScript drives, at a concrete session.
use evnx_crypto.Base.Bytes.{Bytes, zeros, to_byte}
use evnx_crypto.Base.Outcome.{ok, err, panic}
use evnx_crypto.Base.{List, [], ◌∷◌, ◌++◌, arith, ◌≡◌, ◌≢◌, refl, none, replicate}
use evnx_crypto.Tests.Data.{id, plaintext, password}
use evnx_crypto.Tests.Toy.{crates, encode, tag}
use evnx_crypto.Tests.ToyLaws.{
  argon2-IsArgon2, ed25519-IsEd25519, aead-IsAead, rand-IsFilling, hkdf-IsHkdf, x25519-IsX25519,
  mlkem-IsMlKem, zeroize-IsWiping,
}
use evnx_crypto.Vault.Identity.{vault_aad}
use evnx_crypto.Vault.Seal
use evnx_crypto.Vault.VaultKey
use evnx_crypto.Wasm.Destroy
use evnx_crypto.Wasm.Draws
use evnx_crypto.Wasm.Handles.{JsError}
use evnx_crypto.Wasm.Machine.Blobs.{sealed_blob_lasts}
use evnx_crypto.Wasm.Machine.Invariant.{session_no_panic}
use evnx_crypto.Wasm.Machine.Memory.{Memory, fresh, Call, Reply}
use evnx_crypto.Wasm.Machine.Run.{run, run_all}
use evnx_crypto.Zeroize.Released.{buffer}

abbrev pub null_pointer : JsError
null_pointer = record { message = "null pointer passed to rust" }

-- A key is made, wrapped and destroyed, and then used once more.
abbrev session : List Call
session =
    Call.derive_master_key password (encode (zeros 32))
    ∷ Call.create_vault_key
    ∷ Call.wrap_vault_key 0 0
    ∷ Call.encrypt_vault plaintext 0 id 7
    ∷ Call.destroy_vault_key 0
    ∷ []

-- What a destroyed vault key leaves, and how a later use of its handle ends.
abbrev destroyed : Memory crates
destroyed =
    run_all crates null_pointer (Call.create_vault_key ∷ Call.destroy_vault_key 0 ∷ [])
      (fresh crates 3)

destroyed_key : (destroyed.vault_keys ≡ none ∷ []) × (destroyed.released ≡ buffer (zeros 32) ∷ [])
unfolding run_all run Draws.create_vault_key VaultKey.generate Destroy.destroy_vault_key
    VaultKey.drop
destroyed_key = (refl, refl)

used_after :
    (run crates null_pointer destroyed (Call.encrypt_vault plaintext 0 id 8)).0 ≡ err null_pointer
unfolding run_all run Draws.create_vault_key VaultKey.generate Destroy.destroy_vault_key
    VaultKey.drop
used_after = refl

session_no_panic_example :
    (run crates null_pointer
      (run_all crates null_pointer session (fresh crates 3))
      (Call.encrypt_vault plaintext 0 id 8)).0
    ≢ panic
session_no_panic_example =
    session_no_panic crates null_pointer argon2-IsArgon2 aead-IsAead hkdf-IsHkdf ed25519-IsEd25519
      x25519-IsX25519 mlkem-IsMlKem rand-IsFilling zeroize-IsWiping 3 session
      (Call.encrypt_vault plaintext 0 id 8)

abbrev blob : Bytes
blob = replicate 12 (to_byte 4) ++ (plaintext ++ tag (replicate 32 (to_byte 3)) (vault_aad id 7))

-- Another key is made and destroyed.
abbrev other_calls : List Call
other_calls = Call.create_vault_key ∷ Call.destroy_vault_key 1 ∷ Call.generate_salt ∷ []

sealed_by_code :
    (run crates null_pointer
      (run_all crates null_pointer (Call.create_vault_key ∷ []) (fresh crates 3))
      (Call.encrypt_vault plaintext 0 id 7)).0
    ≡ ok (Reply.bytes blob)
unfolding run_all run Draws.create_vault_key Draws.encrypt_vault VaultKey.generate VaultKey.expose
    Seal.encrypt_vault vault_aad
sealed_by_code = refl

sealed_blob_lasts_example :
    (run crates null_pointer
      (run_all crates null_pointer other_calls
        (run crates null_pointer
          (run_all crates null_pointer (Call.create_vault_key ∷ []) (fresh crates 3))
          (Call.encrypt_vault plaintext 0 id 7)).1)
      (Call.decrypt_vault blob 0 id 7)).0
    ≡ ok (Reply.bytes plaintext)
sealed_blob_lasts_example =
    sealed_blob_lasts crates null_pointer argon2-IsArgon2 aead-IsAead aead-IsAead hkdf-IsHkdf
      ed25519-IsEd25519 x25519-IsX25519 mlkem-IsMlKem rand-IsFilling zeroize-IsWiping 3
      (Call.create_vault_key ∷ []) other_calls plaintext 0 id 7 (omega arith) (omega arith)
      (ground arith, (ground arith, (ground arith, tt))) sealed_by_code
