-- ===== src/Tests/Shared.antt =====
-- Two browsers at concrete sessions.
use evnx_crypto.Base.Bytes.{Bytes, to_byte}
use evnx_crypto.Base.Outcome.{ok}
use evnx_crypto.Base.{ℕ, [], ◌∷◌, ◌++◌, ◌≡◌, refl, arith, replicate}
use evnx_crypto.Encoding.{b64_encode}
use evnx_crypto.Keypair.Derive.{derive_x25519_from_ed25519_seed, derive_mlkem_from_ed25519_seed}
use evnx_crypto.Keypair.Generate
use evnx_crypto.Keypair.MlKem768PublicKey as Public
use evnx_crypto.Keypair.UserKeypair as Own
use evnx_crypto.Keypair.X25519PublicKeyBytes as X25519
use evnx_crypto.Tests.Data.{kp, id, plaintext}
use evnx_crypto.Tests.Keys.{wraps}
use evnx_crypto.Tests.Machine.{null_pointer}
use evnx_crypto.Tests.Toy.{crates, encode, tag}
use evnx_crypto.Tests.ToyLaws.{
  argon2-IsArgon2, ed25519-IsEd25519, aead-IsAead, base64-IsBase64, rand-IsFilling, hkdf-IsHkdf,
  x25519-IsX25519, mlkem-IsMlKem, zeroize-IsWiping,
}
use evnx_crypto.Vault.Identity.{vault_aad}
use evnx_crypto.Vault.Seal
use evnx_crypto.Vault.VaultKey
use evnx_crypto.Wasm.Draws
use evnx_crypto.Wasm.Handles
use evnx_crypto.Wasm.Handles.{
  WrappedKeyBundle, KeypairHandle, encrypted_vault_key, eph_pub_key, mlkem_ciphertext,
}
use evnx_crypto.Wasm.Machine.Memory.{Memory, Call, Reply, fresh}
use evnx_crypto.Wasm.Machine.Run.{run, run_all}
use evnx_crypto.Wasm.Machine.Shared.{shared_blob_opens}
use evnx_crypto.Zeroize.SecretArray

abbrev mine : Memory crates
mine = run_all crates null_pointer (Call.create_vault_key ∷ []) (fresh crates 3)

abbrev sealing : Memory crates
sealing =
    run_all crates null_pointer (Call.generate_salt ∷ [])
      (run crates null_pointer mine (Call.encrypt_vault plaintext 0 id 7)).1

abbrev theirs : Memory crates
theirs = run_all crates null_pointer (Call.generate_keypair ∷ []) (fresh crates 5)

abbrev later : Memory crates
later = run_all crates null_pointer (Call.create_vault_key ∷ []) theirs

abbrev blob : Bytes
blob = replicate 12 (to_byte 4) ++ (plaintext ++ tag (replicate 32 (to_byte 3)) (vault_aad id 7))

sealed_by_code :
    (run crates null_pointer mine (Call.encrypt_vault plaintext 0 id 7)).0 ≡ ok (Reply.bytes blob)
unfolding run_all run Draws.create_vault_key Draws.encrypt_vault VaultKey.generate VaultKey.expose
    Seal.encrypt_vault vault_aad
sealed_by_code = refl

published_by_code :
    ((run crates null_pointer theirs (Call.x25519_public_key 0)).0
      ≡ ok (Reply.text (encode kp.x25519_public.bytes)))
    × ((run crates null_pointer theirs (Call.mlkem_public_key 0)).0
        ≡ ok (Reply.text (encode kp.mlkem_public.bytes)))
unfolding run_all run Draws.generate_keypair Generate.generate_keypair
    derive_x25519_from_ed25519_seed derive_mlkem_from_ed25519_seed Public.from_bytes
    SecretArray.zeroed SecretArray.expose_mut SecretArray.into_inner SecretArray.expose
    Handles.x25519_public_key Handles.mlkem_public_key Own.x25519_public_base64
    Own.mlkem_public_base64 X25519.to_base64 Public.to_base64 b64_encode
published_by_code = (refl, refl)

shared_blob_opens_example :
    (bundle : WrappedKeyBundle) × (k : ℕ) × ((run crates null_pointer sealing (
        Call.wrap_vault_key_for_user 0
          (encode kp.x25519_public.bytes)
          (encode kp.mlkem_public.bytes))).0
      ≡ ok (Reply.wrapped bundle))
    × let (unwrapped, n1) = run crates null_pointer later (
        Call.unwrap_shared_vault_key 0
          (encrypted_vault_key bundle)
          (eph_pub_key bundle)
          (mlkem_ciphertext bundle)) in
      (unwrapped ≡ ok (Reply.handle k))
      × ((run crates null_pointer n1 (Call.decrypt_vault blob k id 7)).0
          ≡ ok (Reply.bytes plaintext))
shared_blob_opens_example =
    shared_blob_opens crates null_pointer base64-IsBase64 argon2-IsArgon2 aead-IsAead aead-IsAead
      hkdf-IsHkdf ed25519-IsEd25519 x25519-IsX25519 mlkem-IsMlKem rand-IsFilling zeroize-IsWiping 3
      5 (Call.create_vault_key ∷ []) (Call.generate_salt ∷ []) (Call.generate_keypair ∷ [])
      (Call.create_vault_key ∷ []) plaintext 0 0 id 7 (omega arith) (omega arith) (ground arith, tt)
      (ground arith, tt) sealed_by_code published_by_code.0 published_by_code.1
      (λ (p : KeypairHandle crates) _. wraps p.inner sealing.rng)
