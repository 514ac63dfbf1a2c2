-- ===== src/Wasm/Machine/Invariant.antt =====
-- Every call of src/wasm.rs leaves a sound memory and does not panic, by cases on the call.
use evnx_crypto.Base.Outcome.{ok, panic, Any, Safe-map_err, Safe-ne-panic}
use evnx_crypto.Base.{List, [], ◌∷◌, ◌≡◌}
use evnx_crypto.Crates.Coding.{IsWiping}
use evnx_crypto.Crates.Curve.{IsEd25519, IsX25519}
use evnx_crypto.Crates.Kdf.{IsArgon2, IsHkdf}
use evnx_crypto.Crates.Kem.{IsMlKem}
use evnx_crypto.Crates.Random.{IsFilling}
use evnx_crypto.Crates.Sealing.{IsAead}
use evnx_crypto.Crates.{Crates, Rng}
use evnx_crypto.Kdf.MasterKey.{IsMasterKey}
use evnx_crypto.Keypair.Laws.Identity.{IsUserKeypair}
use evnx_crypto.Vault.VaultKey.{IsVaultKey}
use evnx_crypto.Wasm.Account.{create-IsVaultKey}
use evnx_crypto.Wasm.Draws
use evnx_crypto.Wasm.Handles.{
  JsError, MasterKeyHandle, VaultKeyHandle, KeypairHandle, SrpEphemeralHandle, SrpProofHandle,
}
use evnx_crypto.Wasm.Machine.Exports.Keys.{
  derive_master_key-Safe, derive_srp_password-Safe, generate_keypair-Safe, encrypt_private_key-Safe,
  decrypt_private_key-Safe,
}
use evnx_crypto.Wasm.Machine.Exports.Logins.{
  IsEphemeral, IsProof, generate_client_ephemeral-Safe, compute_verifier-Safe,
  compute_client_proof-Safe, verify_server_proof-Safe,
}
use evnx_crypto.Wasm.Machine.Exports.Shares.{
  unwrap_shared_vault_key-Safe, wrap_vault_key_for_user-Safe,
}
use evnx_crypto.Wasm.Machine.Exports.Vaults.{
  wrap_vault_key-Safe, unwrap_vault_key-Safe, encrypt_vault-Safe, decrypt_vault-Safe,
  aad_self_test-Safe,
}
use evnx_crypto.Wasm.Machine.Memory.{Memory, fresh, Call, Reply}
use evnx_crypto.Wasm.Machine.Released.{
  destroy_master_key-IsSound, destroy_vault_key-IsSound, destroy_keypair-IsSound,
  destroy_ephemeral-IsSound, destroy_proof-IsSound,
}
use evnx_crypto.Wasm.Machine.Run.{run, run_all, never}
use evnx_crypto.Wasm.Machine.Sound.{
  IsSound, IsGood, redrawn, answer-IsGood, answer_drawn-IsGood, borrow-IsGood,
  keep_master_key-IsGood, keep_vault_key-IsGood, keep_keypair-IsGood, keep_ephemeral-IsGood,
  keep_proof-IsGood,
}

module _ (c : Crates) (null_pointer : JsError) (a : IsArgon2 c.argon2) (ad : IsAead c.xchacha)
    (h : IsHkdf c.hkdf) (ed : IsEd25519 c.ed25519) (x : IsX25519 c.x25519) (ml : IsMlKem c.mlkem)
    (f : IsFilling c.rand) (w : IsWiping c.zeroize) where
  run-IsGood : (m : Memory c) (call : Call) → IsSound m → IsGood (run c null_pointer m call)
  unfolding run
  run-IsGood m Call.generate_salt s = (tt, redrawn m _ s)
  run-IsGood m Call.create_vault_key s =
      keep_vault_key-IsGood _ (redrawn m _ s) (ok (Draws.create_vault_key c m.rng).0)
        (create-IsVaultKey c m.rng f)
  run-IsGood m Call.generate_client_ephemeral s =
      keep_ephemeral-IsGood _ (redrawn m _ s) (Draws.generate_client_ephemeral c m.rng).0
        (generate_client_ephemeral-Safe c m.rng f)
  run-IsGood m Call.generate_keypair s = keep_keypair-IsGood _ (redrawn m _ s) _ (
      Safe-map_err (λ k. IsUserKeypair c k.inner) never (Draws.generate_keypair c m.rng).0
        (generate_keypair-Safe c m.rng h ml ed x))
  run-IsGood m (Call.derive_master_key password salt) s =
      keep_master_key-IsGood m s _ (derive_master_key-Safe c password salt a)
  run-IsGood m (Call.derive_srp_password password salt) s =
      answer-IsGood Any Reply.text m _ (derive_srp_password-Safe c password salt) s
  run-IsGood m (Call.wrap_vault_key vk mk) s =
      borrow-IsGood (λ k. IsVaultKey k.inner) m.vault_keys vk null_pointer m _ s.vault_keys s
        (λ k hk.
          borrow-IsGood (λ k. IsMasterKey k.inner) m.master_keys mk null_pointer m _ s.master_keys s
            (λ k' _.
              answer_drawn-IsGood Any Reply.bytes m (Draws.wrap_vault_key c k k' m.rng)
                (wrap_vault_key-Safe c k k' m.rng f) s))
  run-IsGood m (Call.unwrap_vault_key wrapped mk) s =
      borrow-IsGood (λ k. IsMasterKey k.inner) m.master_keys mk null_pointer m _ s.master_keys s
        (λ k _. keep_vault_key-IsGood m s _ (unwrap_vault_key-Safe c wrapped k))
  run-IsGood m (Call.blob_hash ciphertext) s = (tt, s)
  run-IsGood m (Call.encrypt_vault plaintext vk id version) s =
      borrow-IsGood (λ k. IsVaultKey k.inner) m.vault_keys vk null_pointer m _ s.vault_keys s
        (λ k hk.
          answer_drawn-IsGood Any Reply.bytes m (Draws.encrypt_vault c plaintext k id version m.rng)
            (encrypt_vault-Safe c plaintext k id version m.rng f hk) s)
  run-IsGood m (Call.decrypt_vault blob vk id version) s =
      borrow-IsGood (λ k. IsVaultKey k.inner) m.vault_keys vk null_pointer m _ s.vault_keys s
        (λ k hk. answer-IsGood Any Reply.bytes m _ (decrypt_vault-Safe c blob k id version hk) s)
  run-IsGood m (Call.aad_self_test id version) s =
      answer_drawn-IsGood Any Reply.verdict m (Draws.aad_self_test c id version m.rng)
        (aad_self_test-Safe c id version m.rng f) s
  run-IsGood m (Call.wrap_vault_key_for_user vk x25519 mlkem) s =
      borrow-IsGood (λ k. IsVaultKey k.inner) m.vault_keys vk null_pointer m _ s.vault_keys s
        (λ k hk.
          answer_drawn-IsGood Any Reply.wrapped m
            (Draws.wrap_vault_key_for_user c k x25519 mlkem m.rng)
            (wrap_vault_key_for_user-Safe c k x25519 mlkem m.rng f ml) s)
  run-IsGood m (Call.unwrap_shared_vault_key kp key eph ct) s =
      borrow-IsGood (λ k. IsUserKeypair c k.inner) m.keypairs kp null_pointer m _ s.keypairs s
        (λ p _. keep_vault_key-IsGood m s _ (unwrap_shared_vault_key-Safe c p key eph ct ad h ml))
  run-IsGood m (Call.compute_verifier email password salt) s =
      answer-IsGood Any Reply.verifier m _ (compute_verifier-Safe c email password salt) s
  run-IsGood m (Call.compute_client_proof email password salt b ephemeral) s =
      borrow-IsGood (λ k. IsEphemeral c k.inner) m.ephemerals ephemeral null_pointer m _
        s.ephemerals s
        (λ e _. keep_proof-IsGood m s _ (compute_client_proof-Safe c email password salt b e))
  run-IsGood m (Call.verify_server_proof m2 proof) s =
      borrow-IsGood (λ k. IsProof c k.inner) m.proofs proof null_pointer m _ s.proofs s
        (λ p _. answer-IsGood Any (λ _. Reply.done) m _ (verify_server_proof-Safe c m2 p) s)
  run-IsGood m (Call.encrypt_private_key kp mk) s =
      borrow-IsGood (λ k. IsUserKeypair c k.inner) m.keypairs kp null_pointer m _ s.keypairs s
        (λ p _.
          borrow-IsGood (λ k. IsMasterKey k.inner) m.master_keys mk null_pointer m _ s.master_keys s
            (λ k _.
              answer_drawn-IsGood Any Reply.text m (Draws.encrypt_private_key c p k m.rng)
                (encrypt_private_key-Safe c p k m.rng f) s))
  run-IsGood m (Call.decrypt_private_key sealed mk) s =
      borrow-IsGood (λ k. IsMasterKey k.inner) m.master_keys mk null_pointer m _ s.master_keys s
        (λ k _. keep_keypair-IsGood m s _ (decrypt_private_key-Safe c sealed k ad h ml x))
  run-IsGood m (Call.ed25519_public_key kp) s =
      borrow-IsGood (λ k. IsUserKeypair c k.inner) m.keypairs kp null_pointer m _ s.keypairs s
        (λ _ _. (tt, s))
  run-IsGood m (Call.x25519_public_key kp) s =
      borrow-IsGood (λ k. IsUserKeypair c k.inner) m.keypairs kp null_pointer m _ s.keypairs s
        (λ _ _. (tt, s))
  run-IsGood m (Call.mlkem_public_key kp) s =
      borrow-IsGood (λ k. IsUserKeypair c k.inner) m.keypairs kp null_pointer m _ s.keypairs s
        (λ _ _. (tt, s))
  run-IsGood m (Call.public_a ephemeral) s =
      borrow-IsGood (λ k. IsEphemeral c k.inner) m.ephemerals ephemeral null_pointer m _
        s.ephemerals s (λ _ _. (tt, s))
  run-IsGood m (Call.client_proof proof) s =
      borrow-IsGood (λ k. IsProof c k.inner) m.proofs proof null_pointer m _ s.proofs s
        (λ _ _. (tt, s))
  run-IsGood m (Call.destroy_master_key i) s =
      borrow-IsGood (λ (k : MasterKeyHandle). IsMasterKey k.inner) m.master_keys i null_pointer m _
        s.master_keys s (λ k _. (tt, destroy_master_key-IsSound c w ml m s i k))
  run-IsGood m (Call.destroy_vault_key i) s =
      borrow-IsGood (λ (k : VaultKeyHandle). IsVaultKey k.inner) m.vault_keys i null_pointer m _
        s.vault_keys s (λ k _. (tt, destroy_vault_key-IsSound c w ml m s i k))
  run-IsGood m (Call.destroy_keypair i) s =
      borrow-IsGood (λ (k : KeypairHandle c). IsUserKeypair c k.inner) m.keypairs i null_pointer m _
        s.keypairs s (λ k _. (tt, destroy_keypair-IsSound c w ml m s i k))
  run-IsGood m (Call.destroy_ephemeral i) s =
      borrow-IsGood (λ (k : SrpEphemeralHandle). IsEphemeral c k.inner) m.ephemerals i null_pointer
        m _ s.ephemerals s (λ k _. (tt, destroy_ephemeral-IsSound c w ml m s i k))
  run-IsGood m (Call.destroy_proof i) s =
      borrow-IsGood (λ (k : SrpProofHandle c). IsProof c k.inner) m.proofs i null_pointer m _
        s.proofs s (λ k _. (tt, destroy_proof-IsSound c w ml m s i k))

  run_all-IsSound :
      (calls : List Call) (m : Memory c) → IsSound m → IsSound (run_all c null_pointer calls m)
  unfolding run_all
  run_all-IsSound [] m s = s
  run_all-IsSound (call ∷ calls) m s =
      run_all-IsSound calls (run c null_pointer m call).1 (run-IsGood m call s).1

  fresh-IsSound : (g : Rng c) → IsSound (fresh c g)
  fresh-IsSound g = record {
    master_keys = tt;
    vault_keys = tt;
    keypairs = tt;
    ephemerals = tt;
    proofs = tt;
    released = tt;
  }

  pub memory-IsSound :
      (g : Rng c) (calls : List Call) → IsSound (run_all c null_pointer calls (fresh c g))
  memory-IsSound g calls = run_all-IsSound calls (fresh c g) (fresh-IsSound g)

  -- With crates that behave as documented: no call panics, whatever sequence of calls JavaScript
  -- made before it on a fresh memory, and whatever the arguments of all of them are.
  pub session_no_panic :
      (g : Rng c) (calls : List Call) (call : Call)
      → ¬ ((run c null_pointer (run_all c null_pointer calls (fresh c g)) call).0 ≡ panic)
  session_no_panic g calls call =
      let m = run_all c null_pointer calls (fresh c g) in
      Safe-ne-panic Any (run c null_pointer m call).0 (run-IsGood m call (memory-IsSound g calls)).0
