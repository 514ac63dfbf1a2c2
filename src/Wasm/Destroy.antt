-- ===== src/Wasm/Destroy.antt =====
-- The `destroy` methods of src/wasm.rs. Each has an empty body and drops the handle that it takes:
-- what is given here is what the memory of its secrets holds when it is released.
use evnx_crypto.Base.{List, [], ◌∷◌}
use evnx_crypto.Crates.{Crates}
use evnx_crypto.Kdf.MasterKey
use evnx_crypto.Keypair.UserKeypair
use evnx_crypto.Srp.Drop
use evnx_crypto.Vault.VaultKey
use evnx_crypto.Wasm.Handles.{
  MasterKeyHandle, VaultKeyHandle, KeypairHandle, SrpEphemeralHandle, SrpProofHandle,
}
use evnx_crypto.Zeroize.Released.{Released, buffer}

module _ (c : Crates) where
  unfoldable pub destroy_master_key : MasterKeyHandle → List Released
  unfolding MasterKey.drop
  destroy_master_key h = buffer (MasterKey.drop c h.inner) ∷ []

  unfoldable pub destroy_vault_key : VaultKeyHandle → List Released
  unfolding VaultKey.drop
  destroy_vault_key h = buffer (VaultKey.drop c h.inner) ∷ []

  unfoldable pub destroy_keypair : KeypairHandle c → List Released
  unfolding UserKeypair.drop
  destroy_keypair h = UserKeypair.drop c h.inner

  unfoldable pub destroy_ephemeral : SrpEphemeralHandle → List Released
  unfolding Drop.drop_ephemeral
  destroy_ephemeral h = Drop.drop_ephemeral c h.inner

  unfoldable pub destroy_proof : SrpProofHandle c → List Released
  unfolding Drop.drop_proof
  destroy_proof h = Drop.drop_proof c h.inner
