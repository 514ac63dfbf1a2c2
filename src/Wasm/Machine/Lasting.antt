-- ===== src/Wasm/Machine/Lasting.antt =====
-- A handle stands for the same value until it is destroyed, whatever calls are made.
use evnx_crypto.Base.{ℕ, zero, suc, List, [], ◌∷◌, none, some, ◌≡◌, ◌≢◌, refl, sym, ap, arith}
use evnx_crypto.Crates.{Crates}
use evnx_crypto.Wasm.Handles.{
  JsError, MasterKeyHandle, VaultKeyHandle, KeypairHandle, SrpEphemeralHandle, SrpProofHandle,
}
use evnx_crypto.Wasm.Machine.Classes.{
  Class, master_key, vault_key, keypair, ephemeral, proof, full, place, place_of, destroy, Value,
  value_of,
}
use evnx_crypto.Wasm.Machine.Memory.{Memory, Call}
use evnx_crypto.Wasm.Machine.Run.{run, run_all}
use evnx_crypto.Wasm.Machine.Slots.{Slots, free_slot, add_slot, get_slot}

module _ {H : Type 0} where
  get_slot-add_slot :
      (i : ℕ) (slots : Slots H) (h k : H)
      → get_slot i slots ≡ some k
      → get_slot i (add_slot h slots) ≡ some k
  get_slot-add_slot i [] h k e = cc
  get_slot-add_slot zero (s ∷ r) h k e = e
  get_slot-add_slot (suc i) (s ∷ r) h k e = get_slot-add_slot i r h k e

  get_slot-free_slot :
      (i j : ℕ) (slots : Slots H) → i ≢ j → get_slot i (free_slot j slots) ≡ get_slot i slots
  get_slot-free_slot i j [] n = refl
  get_slot-free_slot zero zero (s ∷ r) n = absurd (n refl)
  get_slot-free_slot zero (suc j) (s ∷ r) n = refl
  get_slot-free_slot (suc i) zero (s ∷ r) n = refl
  get_slot-free_slot (suc i) (suc j) (s ∷ r) n = get_slot-free_slot i j r (λ e. n (ap suc e))

  -- A full place is one that has a value.
  pub get_slot-full :
      (i : ℕ) (slots : Slots H) → place i slots ≡ full → (h : H) × (get_slot i slots ≡ some h)
  get_slot-full i [] e = absurd (ground arith)
  get_slot-full zero (none ∷ r) e = absurd (ground arith)
  get_slot-full zero (some h ∷ r) e = (h, refl)
  get_slot-full (suc i) (s ∷ r) e = get_slot-full i r e

  get_slot-some :
      (i : ℕ) (slots : Slots H) (h : H) → get_slot i slots ≡ some h → place i slots ≡ full
  get_slot-some i [] h e = absurd (ground arith)
  get_slot-some zero (none ∷ r) h e = absurd (ground arith)
  get_slot-some zero (some k ∷ r) h e = refl
  get_slot-some (suc i) (s ∷ r) h e = get_slot-some i r h e

-- The call is not the one that destroys this handle.
abbrev pub Keeps : Class → ℕ → Call → Type 0
Keeps k i call = call ≢ destroy k i

abbrev pub AllKeep : Class → ℕ → List Call → Type 0
AllKeep k i [] = Unit {0}
AllKeep k i (call ∷ calls) = Keeps k i call × AllKeep k i calls

module _ (c : Crates) (null_pointer : JsError) (i : ℕ) where
  -- The handle stands for this value before the call, and so it does after it.
  abbrev KeepsValue : (k : Class) → Value c k → Memory c → Call → Type 0
  KeepsValue k h m call =
      Keeps k i call → value_of m k i ≡ some h → value_of (run c null_pointer m call).1 k i ≡ some h

  other_handle : (k : Class) (j : ℕ) → Keeps k i (destroy k j) → i ≢ j
  other_handle k j n e = n (ap (destroy k) (sym e))

  keeps_master_key :
      (h : MasterKeyHandle) (m : Memory c) (call : Call) → KeepsValue master_key h m call
  unfolding run
  keeps_master_key h m (Call.derive_master_key password salt) n e =
      grind (arith, λ (x : MasterKeyHandle). get_slot-add_slot i m.master_keys x h e)
  keeps_master_key h m (Call.destroy_master_key j) n e =
      ground (arith, get_slot-free_slot i j m.master_keys (other_handle master_key j n))
  keeps_master_key h m call n e = ground arith

  keeps_vault_key :
      (h : VaultKeyHandle) (m : Memory c) (call : Call) → KeepsValue vault_key h m call
  unfolding run
  keeps_vault_key h m Call.create_vault_key n e =
      grind (arith, λ (x : VaultKeyHandle). get_slot-add_slot i m.vault_keys x h e)
  keeps_vault_key h m (Call.unwrap_vault_key wrapped mk) n e =
      grind (arith, λ (x : VaultKeyHandle). get_slot-add_slot i m.vault_keys x h e)
  keeps_vault_key h m (Call.unwrap_shared_vault_key kp key eph ct) n e =
      grind (arith, λ (x : VaultKeyHandle). get_slot-add_slot i m.vault_keys x h e)
  keeps_vault_key h m (Call.destroy_vault_key j) n e =
      ground (arith, get_slot-free_slot i j m.vault_keys (other_handle vault_key j n))
  keeps_vault_key h m call n e = ground arith

  keeps_keypair : (h : KeypairHandle c) (m : Memory c) (call : Call) → KeepsValue keypair h m call
  unfolding run
  keeps_keypair h m Call.generate_keypair n e =
      grind (arith, λ (x : KeypairHandle c). get_slot-add_slot i m.keypairs x h e)
  keeps_keypair h m (Call.decrypt_private_key sealed mk) n e =
      grind (arith, λ (x : KeypairHandle c). get_slot-add_slot i m.keypairs x h e)
  keeps_keypair h m (Call.destroy_keypair j) n e =
      ground (arith, get_slot-free_slot i j m.keypairs (other_handle keypair j n))
  keeps_keypair h m call n e = ground arith

  keeps_ephemeral :
      (h : SrpEphemeralHandle) (m : Memory c) (call : Call) → KeepsValue ephemeral h m call
  unfolding run
  keeps_ephemeral h m Call.generate_client_ephemeral n e =
      grind (arith, λ (x : SrpEphemeralHandle). get_slot-add_slot i m.ephemerals x h e)
  keeps_ephemeral h m (Call.destroy_ephemeral j) n e =
      ground (arith, get_slot-free_slot i j m.ephemerals (other_handle ephemeral j n))
  keeps_ephemeral h m call n e = ground arith

  keeps_proof : (h : SrpProofHandle c) (m : Memory c) (call : Call) → KeepsValue proof h m call
  unfolding run
  keeps_proof h m (Call.compute_client_proof email password salt b ephemeral_handle) n e =
      grind (arith, λ (x : SrpProofHandle c). get_slot-add_slot i m.proofs x h e)
  keeps_proof h m (Call.destroy_proof j) n e =
      ground (arith, get_slot-free_slot i j m.proofs (other_handle proof j n))
  keeps_proof h m call n e = ground arith

  run_keeps : (k : Class) (h : Value c k) (m : Memory c) (call : Call) → KeepsValue k h m call
  run_keeps master_key = keeps_master_key
  run_keeps vault_key = keeps_vault_key
  run_keeps keypair = keeps_keypair
  run_keeps ephemeral = keeps_ephemeral
  run_keeps proof = keeps_proof

  pub run_all_keeps :
      (k : Class) (h : Value c k) (calls : List Call) (m : Memory c)
      → AllKeep k i calls
      → value_of m k i ≡ some h
      → value_of (run_all c null_pointer calls m) k i ≡ some h
  unfolding run_all
  run_all_keeps k h [] m n e = e
  run_all_keeps k h (call ∷ calls) m (n, rest) e =
      run_all_keeps k h calls (run c null_pointer m call).1 rest (run_keeps k h m call n e)

  pub full_value :
      (k : Class) (m : Memory c)
      → place_of m k i ≡ full
      → (h : Value c k) × (value_of m k i ≡ some h)
  full_value master_key m e = get_slot-full i m.master_keys e
  full_value vault_key m e = get_slot-full i m.vault_keys e
  full_value keypair m e = get_slot-full i m.keypairs e
  full_value ephemeral m e = get_slot-full i m.ephemerals e
  full_value proof m e = get_slot-full i m.proofs e

  pub value_full :
      (k : Class) (m : Memory c) (h : Value c k) → value_of m k i ≡ some h → place_of m k i ≡ full
  value_full master_key m h e = get_slot-some i m.master_keys h e
  value_full vault_key m h e = get_slot-some i m.vault_keys h e
  value_full keypair m h e = get_slot-some i m.keypairs h e
  value_full ephemeral m h e = get_slot-some i m.ephemerals h e
  value_full proof m h e = get_slot-some i m.proofs h e
