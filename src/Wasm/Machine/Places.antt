-- ===== src/Wasm/Machine/Places.antt =====
-- A handle that was destroyed never has a value again.
use evnx_crypto.Base.{ℕ, zero, suc, List, [], ◌∷◌, none, some, ◌≡◌, refl, arith, length}
use evnx_crypto.Crates.{Crates}
use evnx_crypto.Wasm.Handles.{
  JsError, MasterKeyHandle, VaultKeyHandle, KeypairHandle, SrpEphemeralHandle, SrpProofHandle,
}
use evnx_crypto.Wasm.Machine.Classes.{
  Class, master_key, vault_key, keypair, ephemeral, proof, unused, empty, full, place, place_of,
}
use evnx_crypto.Wasm.Machine.Memory.{Memory, Call}
use evnx_crypto.Wasm.Machine.Run.{run, run_all}
use evnx_crypto.Wasm.Machine.Slots.{Slots, free_slot, add_slot}

module _ {H : Type 0} where
  -- The handle of a new value.
  pub place_new :
      (slots : Slots H) (h : H)
      → (place (length slots) slots ≡ unused) × (place (length slots) (add_slot h slots) ≡ full)
  place_new [] h = (refl, refl)
  place_new (s ∷ r) h = place_new r h

  pub place_freed :
      (i : ℕ) (slots : Slots H) → place i slots ≡ full → place i (free_slot i slots) ≡ empty
  place_freed i [] e = cc
  place_freed zero (s ∷ r) e = refl
  place_freed (suc i) (s ∷ r) e = place_freed i r e

  add_slot-empty :
      (i : ℕ) (slots : Slots H) (h : H) → place i slots ≡ empty → place i (add_slot h slots) ≡ empty
  add_slot-empty i [] h e = cc
  add_slot-empty zero (none ∷ r) h e = refl
  add_slot-empty zero (some k ∷ r) h e = e
  add_slot-empty (suc i) (s ∷ r) h e = add_slot-empty i r h e

  free_slot-empty :
      (i j : ℕ) (slots : Slots H) → place i slots ≡ empty → place i (free_slot j slots) ≡ empty
  free_slot-empty i j [] e = e
  free_slot-empty zero zero (s ∷ r) e = refl
  free_slot-empty zero (suc j) (none ∷ r) e = e
  free_slot-empty zero (suc j) (some h ∷ r) e = e
  free_slot-empty (suc i) zero (s ∷ r) e = e
  free_slot-empty (suc i) (suc j) (s ∷ r) e = free_slot-empty i j r e

module _ (c : Crates) (null_pointer : JsError) (i : ℕ) where
  -- The call gives the destroyed handle no value.
  abbrev LeavesEmpty : Class → Memory c → Call → Type 0
  LeavesEmpty k m call = place_of m k i ≡ empty → place_of (run c null_pointer m call).1 k i ≡ empty

  empty_master_key : (m : Memory c) (call : Call) → LeavesEmpty master_key m call
  unfolding run
  empty_master_key m (Call.derive_master_key password salt) e =
      grind (arith, λ (x : MasterKeyHandle). add_slot-empty i m.master_keys x e)
  empty_master_key m (Call.destroy_master_key j) e =
      ground (arith, free_slot-empty i j m.master_keys e)
  empty_master_key m call e = ground arith

  empty_vault_key : (m : Memory c) (call : Call) → LeavesEmpty vault_key m call
  unfolding run
  empty_vault_key m Call.create_vault_key e =
      grind (arith, λ (x : VaultKeyHandle). add_slot-empty i m.vault_keys x e)
  empty_vault_key m (Call.unwrap_vault_key wrapped mk) e =
      grind (arith, λ (x : VaultKeyHandle). add_slot-empty i m.vault_keys x e)
  empty_vault_key m (Call.unwrap_shared_vault_key kp key eph ct) e =
      grind (arith, λ (x : VaultKeyHandle). add_slot-empty i m.vault_keys x e)
  empty_vault_key m (Call.destroy_vault_key j) e =
      ground (arith, free_slot-empty i j m.vault_keys e)
  empty_vault_key m call e = ground arith

  empty_keypair : (m : Memory c) (call : Call) → LeavesEmpty keypair m call
  unfolding run
  empty_keypair m Call.generate_keypair e =
      grind (arith, λ (x : KeypairHandle c). add_slot-empty i m.keypairs x e)
  empty_keypair m (Call.decrypt_private_key sealed mk) e =
      grind (arith, λ (x : KeypairHandle c). add_slot-empty i m.keypairs x e)
  empty_keypair m (Call.destroy_keypair j) e = ground (arith, free_slot-empty i j m.keypairs e)
  empty_keypair m call e = ground arith

  empty_ephemeral : (m : Memory c) (call : Call) → LeavesEmpty ephemeral m call
  unfolding run
  empty_ephemeral m Call.generate_client_ephemeral e =
      grind (arith, λ (x : SrpEphemeralHandle). add_slot-empty i m.ephemerals x e)
  empty_ephemeral m (Call.destroy_ephemeral j) e =
      ground (arith, free_slot-empty i j m.ephemerals e)
  empty_ephemeral m call e = ground arith

  empty_proof : (m : Memory c) (call : Call) → LeavesEmpty proof m call
  unfolding run
  empty_proof m (Call.compute_client_proof email password salt b ephemeral_handle) e =
      grind (arith, λ (x : SrpProofHandle c). add_slot-empty i m.proofs x e)
  empty_proof m (Call.destroy_proof j) e = ground (arith, free_slot-empty i j m.proofs e)
  empty_proof m call e = ground arith

  run-empty : (k : Class) (m : Memory c) (call : Call) → LeavesEmpty k m call
  run-empty master_key = empty_master_key
  run-empty vault_key = empty_vault_key
  run-empty keypair = empty_keypair
  run-empty ephemeral = empty_ephemeral
  run-empty proof = empty_proof

  pub stays_empty :
      (k : Class) (calls : List Call) (m : Memory c)
      → place_of m k i ≡ empty
      → place_of (run_all c null_pointer calls m) k i ≡ empty
  unfolding run_all
  stays_empty k [] m e = e
  stays_empty k (call ∷ calls) m e =
      stays_empty k calls (run c null_pointer m call).1 (run-empty k m call e)
