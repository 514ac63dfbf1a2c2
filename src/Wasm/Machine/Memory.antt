-- ===== src/Wasm/Machine/Memory.antt =====
-- The linear memory of src/wasm.rs, what JavaScript can call, and what it gets back.
use evnx_crypto.Base.Bytes.{Bytes, Text}
use evnx_crypto.Base.{ℕ, Bool, List, []}
use evnx_crypto.Crates.{Crates, Rng}
use evnx_crypto.Wasm.Handles.{
  MasterKeyHandle, VaultKeyHandle, KeypairHandle, SrpEphemeralHandle, SrpProofHandle,
  WrappedKeyBundle, VerifierBundle,
}
use evnx_crypto.Wasm.Machine.Slots.{Slots}
use evnx_crypto.Zeroize.Released.{Released}

-- `released` holds the memory of secrets that `destroy` has given back, as it was left.
pub record Memory (c : Crates) : Type 0 where
  pub rng : Rng c
  pub master_keys : Slots MasterKeyHandle
  pub vault_keys : Slots VaultKeyHandle
  pub keypairs : Slots (KeypairHandle c)
  pub ephemerals : Slots SrpEphemeralHandle
  pub proofs : Slots (SrpProofHandle c)
  pub released : List Released

abbrev pub fresh : (c : Crates) → Rng c → Memory c
fresh c g = record {
  rng = g;
  master_keys = [];
  vault_keys = [];
  keypairs = [];
  ephemerals = [];
  proofs = [];
  released = [];
}

-- The exported functions and methods with what JavaScript passes: texts, bytes, numbers and handles.
pub data Call : Type 0 where
  generate_salt create_vault_key generate_client_ephemeral generate_keypair : Call
  derive_master_key derive_srp_password : Text → Text → Call
  -- The vault key and the master key.
  wrap_vault_key : ℕ → ℕ → Call
  -- The wrapped bytes and the master key.
  unwrap_vault_key : Bytes → ℕ → Call
  blob_hash : Bytes → Call
  -- The plaintext or blob, the vault key, the vault id and the version.
  encrypt_vault decrypt_vault : Bytes → ℕ → Text → ℕ → Call
  aad_self_test : Text → ℕ → Call
  -- The vault key and the recipient's two public keys.
  wrap_vault_key_for_user : ℕ → Text → Text → Call
  -- The keypair and the three texts of the bundle.
  unwrap_shared_vault_key : ℕ → Text → Text → Text → Call
  compute_verifier : Text → Text → Text → Call
  -- The email, the password input, the salt, the server's value and the ephemeral.
  compute_client_proof : Text → Text → Text → Text → ℕ → Call
  verify_server_proof : Text → ℕ → Call
  -- The keypair or the sealed text, and the master key.
  encrypt_private_key : ℕ → ℕ → Call
  decrypt_private_key : Text → ℕ → Call
  ed25519_public_key x25519_public_key mlkem_public_key public_a client_proof : ℕ → Call
  destroy_master_key destroy_vault_key destroy_keypair destroy_ephemeral destroy_proof : ℕ → Call

pub data Reply : Type 0 where
  done : Reply
  text : Text → Reply
  bytes : Bytes → Reply
  verdict : Bool → Reply
  handle : ℕ → Reply
  wrapped : WrappedKeyBundle → Reply
  verifier : VerifierBundle → Reply
