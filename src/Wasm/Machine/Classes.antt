-- ===== src/Wasm/Machine/Classes.antt =====
-- The classes of src/wasm.rs as a type discipline on what JavaScript holds: which handles a call
-- borrows, which one it destroys, and what kind of value its signature returns.
use evnx_crypto.Base.{ℕ, zero, suc, List, [], ◌∷◌, none, some, Option}
use evnx_crypto.Crates.{Crates}
use evnx_crypto.Wasm.Handles.{
  MasterKeyHandle, VaultKeyHandle, KeypairHandle, SrpEphemeralHandle, SrpProofHandle,
}
use evnx_crypto.Wasm.Machine.Memory.{Memory, Call}
use evnx_crypto.Wasm.Machine.Slots.{Slots, get_slot}

pub data Class : Type 0 where
  master_key vault_key keypair ephemeral proof : Class

-- A number that no handle has yet, a handle whose value is gone, and one that stands for a value.
pub data Place : Type 0 where
  unused empty full : Place

abbrev pub place : {H : Type 0} → ℕ → Slots H → Place
place i [] = unused
place zero (none ∷ r) = empty
place zero (some h ∷ r) = full
place (suc i) (s ∷ r) = place i r

abbrev pub place_of : {c : Crates} → Memory c → Class → ℕ → Place
place_of m master_key i = place i m.master_keys
place_of m vault_key i = place i m.vault_keys
place_of m keypair i = place i m.keypairs
place_of m ephemeral i = place i m.ephemerals
place_of m proof i = place i m.proofs

-- What a handle of the class stands for.
abbrev pub Value : Crates → Class → Type 0
Value c master_key = MasterKeyHandle
Value c vault_key = VaultKeyHandle
Value c keypair = KeypairHandle c
Value c ephemeral = SrpEphemeralHandle
Value c proof = SrpProofHandle c

abbrev pub value_of : {c : Crates} → Memory c → (k : Class) → ℕ → Option (Value c k)
value_of m master_key i = get_slot i m.master_keys
value_of m vault_key i = get_slot i m.vault_keys
value_of m keypair i = get_slot i m.keypairs
value_of m ephemeral i = get_slot i m.ephemerals
value_of m proof i = get_slot i m.proofs

abbrev pub borrows : Call → List (Class × ℕ)
borrows (Call.wrap_vault_key vk mk) = (vault_key, vk) ∷ (master_key, mk) ∷ []
borrows (Call.unwrap_vault_key wrapped mk) = (master_key, mk) ∷ []
borrows (Call.encrypt_vault plaintext vk id version) = (vault_key, vk) ∷ []
borrows (Call.decrypt_vault blob vk id version) = (vault_key, vk) ∷ []
borrows (Call.wrap_vault_key_for_user vk x25519 mlkem) = (vault_key, vk) ∷ []
borrows (Call.unwrap_shared_vault_key kp key eph ct) = (keypair, kp) ∷ []
borrows (Call.compute_client_proof email password salt b e) = (ephemeral, e) ∷ []
borrows (Call.verify_server_proof m2 p) = (proof, p) ∷ []
borrows (Call.encrypt_private_key kp mk) = (keypair, kp) ∷ (master_key, mk) ∷ []
borrows (Call.decrypt_private_key sealed mk) = (master_key, mk) ∷ []
borrows (Call.ed25519_public_key kp) = (keypair, kp) ∷ []
borrows (Call.x25519_public_key kp) = (keypair, kp) ∷ []
borrows (Call.mlkem_public_key kp) = (keypair, kp) ∷ []
borrows (Call.public_a e) = (ephemeral, e) ∷ []
borrows (Call.client_proof p) = (proof, p) ∷ []
borrows (Call.destroy_master_key i) = (master_key, i) ∷ []
borrows (Call.destroy_vault_key i) = (vault_key, i) ∷ []
borrows (Call.destroy_keypair i) = (keypair, i) ∷ []
borrows (Call.destroy_ephemeral i) = (ephemeral, i) ∷ []
borrows (Call.destroy_proof i) = (proof, i) ∷ []
borrows call = []

abbrev pub destroy : Class → ℕ → Call
destroy master_key i = Call.destroy_master_key i
destroy vault_key i = Call.destroy_vault_key i
destroy keypair i = Call.destroy_keypair i
destroy ephemeral i = Call.destroy_ephemeral i
destroy proof i = Call.destroy_proof i

pub data Kind : Type 0 where
  nothing a_text some_bytes a_verdict a_bundle a_verifier : Kind
  handle_of : Class → Kind

-- The return types of the signatures.
abbrev pub kind : Call → Kind
kind Call.generate_salt = a_text
kind Call.create_vault_key = handle_of vault_key
kind Call.generate_client_ephemeral = handle_of ephemeral
kind Call.generate_keypair = handle_of keypair
kind (Call.derive_master_key password salt) = handle_of master_key
kind (Call.derive_srp_password password salt) = a_text
kind (Call.wrap_vault_key vk mk) = some_bytes
kind (Call.unwrap_vault_key wrapped mk) = handle_of vault_key
kind (Call.blob_hash ciphertext) = a_text
kind (Call.encrypt_vault plaintext vk id version) = some_bytes
kind (Call.decrypt_vault blob vk id version) = some_bytes
kind (Call.aad_self_test id version) = a_verdict
kind (Call.wrap_vault_key_for_user vk x25519 mlkem) = a_bundle
kind (Call.unwrap_shared_vault_key kp key eph ct) = handle_of vault_key
kind (Call.compute_verifier email password salt) = a_verifier
kind (Call.compute_client_proof email password salt b e) = handle_of proof
kind (Call.verify_server_proof m2 p) = nothing
kind (Call.encrypt_private_key kp mk) = a_text
kind (Call.decrypt_private_key sealed mk) = handle_of keypair
kind (Call.ed25519_public_key kp) = a_text
kind (Call.x25519_public_key kp) = a_text
kind (Call.mlkem_public_key kp) = a_text
kind (Call.public_a e) = a_text
kind (Call.client_proof p) = a_text
kind (Call.destroy_master_key i) = nothing
kind (Call.destroy_vault_key i) = nothing
kind (Call.destroy_keypair i) = nothing
kind (Call.destroy_ephemeral i) = nothing
kind (Call.destroy_proof i) = nothing
