-- ===== src/Wasm/Machine/Keep.antt =====
-- How a call ends: a reply or an error, and the memory, with a new handle where one was made.
use evnx_crypto.Base.Outcome.{Outcome, ok, err, panic, map}
use evnx_crypto.Base.{ℕ, List, ◌++◌, length, Option, none, some}
use evnx_crypto.Crates.{Crates, Rng}
use evnx_crypto.Wasm.Handles.{
  JsError, MasterKeyHandle, VaultKeyHandle, KeypairHandle, SrpEphemeralHandle, SrpProofHandle,
}
use evnx_crypto.Wasm.Machine.Memory.{Memory, Reply, handle}
use evnx_crypto.Wasm.Machine.Slots.{add_slot}
use evnx_crypto.Zeroize.Released.{Released}

abbrev pub Answer : Crates → Type 0
Answer c = Outcome JsError Reply × Memory c

module _ {c : Crates} where
  abbrev pub answer : {A : Type 0} → (A → Reply) → Memory c → Outcome JsError A → Answer c
  answer reply m r = (map reply r, m)

  abbrev pub answer_drawn :
      {A : Type 0} → (A → Reply) → Memory c → Outcome JsError A × Rng c → Answer c
  answer_drawn reply m (r, g) = (map reply r, record m { rng = g })

  -- A handle whose slot is empty, or that was never given out, is refused by the glue.
  abbrev pub borrow : {H : Type 0} → JsError → Memory c → Option H → (H → Answer c) → Answer c
  borrow e m none f = (err e, m)
  borrow e m (some h) f = f h

  abbrev pub keep : {H : Type 0} → (H → Memory c) → ℕ → Memory c → Outcome JsError H → Answer c
  keep store n m (ok h) = (ok (handle n), store h)
  keep store n m (err e) = (err e, m)
  keep store n m panic = (panic, m)

  abbrev pub keep_master_key : Memory c → Outcome JsError MasterKeyHandle → Answer c
  keep_master_key m =
      keep (λ h. record m { master_keys = add_slot h m.master_keys }) (length m.master_keys) m

  abbrev pub keep_vault_key : Memory c → Outcome JsError VaultKeyHandle → Answer c
  keep_vault_key m =
      keep (λ h. record m { vault_keys = add_slot h m.vault_keys }) (length m.vault_keys) m

  abbrev pub keep_keypair : Memory c → Outcome JsError (KeypairHandle c) → Answer c
  keep_keypair m = keep (λ h. record m { keypairs = add_slot h m.keypairs }) (length m.keypairs) m

  abbrev pub keep_ephemeral : Memory c → Outcome JsError SrpEphemeralHandle → Answer c
  keep_ephemeral m =
      keep (λ h. record m { ephemerals = add_slot h m.ephemerals }) (length m.ephemerals) m

  abbrev pub keep_proof : Memory c → Outcome JsError (SrpProofHandle c) → Answer c
  keep_proof m = keep (λ h. record m { proofs = add_slot h m.proofs }) (length m.proofs) m

  abbrev pub release : Memory c → List Released → Memory c
  release m buffers = record m { released = m.released ++ buffers }
