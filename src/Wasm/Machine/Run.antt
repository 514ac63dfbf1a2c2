-- ===== src/Wasm/Machine/Run.antt =====
-- One call from JavaScript, and a sequence of calls. Each case runs the exported function of its
-- name. The error for an empty handle is that of the glue, a parameter.
use evnx_crypto.Base.Outcome.{ok, map_err}
use evnx_crypto.Base.{List, [], ◌∷◌}
use evnx_crypto.Crates.{Crates}
use evnx_crypto.Wasm.Calls
use evnx_crypto.Wasm.Destroy
use evnx_crypto.Wasm.Draws
use evnx_crypto.Wasm.Handles
use evnx_crypto.Wasm.Handles.{JsError}
use evnx_crypto.Wasm.Machine.Keep.{
  Answer, answer, answer_drawn, borrow, keep_master_key, keep_vault_key, keep_keypair,
  keep_ephemeral, keep_proof, release,
}
use evnx_crypto.Wasm.Machine.Memory.{Memory, Call, Reply}
use evnx_crypto.Wasm.Machine.Slots.{get_slot, free_slot}

-- `generate_keypair` has no error value.
abbrev pub never : ⊥ → JsError
never e = absurd e

module _ (c : Crates) (null_pointer : JsError) where
  unfoldable pub run : Memory c → Call → Answer c
  run m Call.generate_salt =
      let (s, g) = Draws.generate_salt c m.rng in (ok (Reply.text s), record m { rng = g })
  run m Call.create_vault_key =
      let (h, g) = Draws.create_vault_key c m.rng in keep_vault_key (record m { rng = g }) (ok h)
  run m Call.generate_client_ephemeral =
      let (r, g) = Draws.generate_client_ephemeral c m.rng in
      keep_ephemeral (record m { rng = g }) r
  run m Call.generate_keypair =
      let (r, g) = Draws.generate_keypair c m.rng in
      keep_keypair (record m { rng = g }) (map_err never r)
  run m (Call.derive_master_key password salt) =
      keep_master_key m (Calls.derive_master_key c password salt)
  run m (Call.derive_srp_password password salt) =
      answer Reply.text m (Calls.derive_srp_password c password salt)
  run m (Call.wrap_vault_key vk mk) = borrow null_pointer m (get_slot vk m.vault_keys) (λ k.
      borrow null_pointer m (get_slot mk m.master_keys)
        (λ h. answer_drawn Reply.bytes m (Draws.wrap_vault_key c k h m.rng)))
  run m (Call.unwrap_vault_key wrapped mk) =
      borrow null_pointer m (get_slot mk m.master_keys)
        (λ h. keep_vault_key m (Calls.unwrap_vault_key c wrapped h))
  run m (Call.blob_hash ciphertext) = (ok (Reply.text (Calls.blob_hash c ciphertext)), m)
  run m (Call.encrypt_vault plaintext vk id version) =
      borrow null_pointer m (get_slot vk m.vault_keys)
        (λ k. answer_drawn Reply.bytes m (Draws.encrypt_vault c plaintext k id version m.rng))
  run m (Call.decrypt_vault blob vk id version) =
      borrow null_pointer m (get_slot vk m.vault_keys)
        (λ k. answer Reply.bytes m (Calls.decrypt_vault c blob k id version))
  run m (Call.aad_self_test id version) =
      answer_drawn Reply.verdict m (Draws.aad_self_test c id version m.rng)
  run m (Call.wrap_vault_key_for_user vk x25519 mlkem) =
      borrow null_pointer m (get_slot vk m.vault_keys)
        (λ k. answer_drawn Reply.wrapped m (Draws.wrap_vault_key_for_user c k x25519 mlkem m.rng))
  run m (Call.unwrap_shared_vault_key kp key eph ct) =
      borrow null_pointer m (get_slot kp m.keypairs)
        (λ p. keep_vault_key m (Calls.unwrap_shared_vault_key c p key eph ct))
  run m (Call.compute_verifier email password salt) =
      answer Reply.verifier m (Calls.compute_verifier c email password salt)
  run m (Call.compute_client_proof email password salt b ephemeral) =
      borrow null_pointer m (get_slot ephemeral m.ephemerals)
        (λ e. keep_proof m (Calls.compute_client_proof c email password salt b e))
  run m (Call.verify_server_proof m2 proof) =
      borrow null_pointer m (get_slot proof m.proofs)
        (λ p. answer (λ _. Reply.done) m (Calls.verify_server_proof c m2 p))
  run m (Call.encrypt_private_key kp mk) = borrow null_pointer m (get_slot kp m.keypairs) (λ p.
      borrow null_pointer m (get_slot mk m.master_keys)
        (λ h. answer_drawn Reply.text m (Draws.encrypt_private_key c p h m.rng)))
  run m (Call.decrypt_private_key sealed mk) =
      borrow null_pointer m (get_slot mk m.master_keys)
        (λ h. keep_keypair m (Calls.decrypt_private_key c sealed h))
  run m (Call.ed25519_public_key kp) =
      borrow null_pointer m (get_slot kp m.keypairs)
        (λ p. (ok (Reply.text (Handles.ed25519_public_key c p)), m))
  run m (Call.x25519_public_key kp) =
      borrow null_pointer m (get_slot kp m.keypairs)
        (λ p. (ok (Reply.text (Handles.x25519_public_key c p)), m))
  run m (Call.mlkem_public_key kp) =
      borrow null_pointer m (get_slot kp m.keypairs)
        (λ p. (ok (Reply.text (Handles.mlkem_public_key c p)), m))
  run m (Call.public_a ephemeral) =
      borrow null_pointer m (get_slot ephemeral m.ephemerals)
        (λ e. (ok (Reply.text (Handles.public_a c e)), m))
  run m (Call.client_proof proof) =
      borrow null_pointer m (get_slot proof m.proofs)
        (λ p. (ok (Reply.text (Handles.client_proof c p)), m))
  run m (Call.destroy_master_key i) = borrow null_pointer m (get_slot i m.master_keys) (λ h. (
    ok Reply.done,
    release (record m { master_keys = free_slot i m.master_keys }) (Destroy.destroy_master_key c h),
  ))
  run m (Call.destroy_vault_key i) = borrow null_pointer m (get_slot i m.vault_keys) (λ h. (
    ok Reply.done,
    release (record m { vault_keys = free_slot i m.vault_keys }) (Destroy.destroy_vault_key c h),
  ))
  run m (Call.destroy_keypair i) = borrow null_pointer m (get_slot i m.keypairs) (λ h. (
    ok Reply.done,
    release (record m { keypairs = free_slot i m.keypairs }) (Destroy.destroy_keypair c h),
  ))
  run m (Call.destroy_ephemeral i) = borrow null_pointer m (get_slot i m.ephemerals) (λ h. (
    ok Reply.done,
    release (record m { ephemerals = free_slot i m.ephemerals }) (Destroy.destroy_ephemeral c h),
  ))
  run m (Call.destroy_proof i) = borrow null_pointer m (get_slot i m.proofs) (λ h. (
    ok Reply.done,
    release (record m { proofs = free_slot i m.proofs }) (Destroy.destroy_proof c h),
  ))

  -- A panic traps, and the instance answers no call after it; the memory is of no use then.
  unfoldable pub run_all : List Call → Memory c → Memory c
  run_all [] m = m
  run_all (call ∷ calls) m = run_all calls (run m call).1
