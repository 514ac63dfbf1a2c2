-- ===== src/Wasm/Machine/Released.antt =====
-- What the `destroy` methods of src/wasm.rs leave of a handle: an empty slot, and wiped memory.
use evnx_crypto.Base.Bytes.{Bytes, zeros}
use evnx_crypto.Base.{ℕ, length, length-replicate, arith, ◌≡◌, refl}
use evnx_crypto.Crates.Coding.{IsWiping}
use evnx_crypto.Crates.Kem.{IsMlKem}
use evnx_crypto.Crates.{Crates}
use evnx_crypto.Kdf.MasterKey
use evnx_crypto.Kdf.MasterKey.{IsMasterKey}
use evnx_crypto.Keypair.Laws.Identity.{IsUserKeypair}
use evnx_crypto.Keypair.UserKeypair
use evnx_crypto.Srp.Drop
use evnx_crypto.Vault.VaultKey
use evnx_crypto.Vault.VaultKey.{IsVaultKey}
use evnx_crypto.Wasm.Destroy
use evnx_crypto.Wasm.Handles.{
  MasterKeyHandle, VaultKeyHandle, KeypairHandle, SrpEphemeralHandle, SrpProofHandle,
}
use evnx_crypto.Wasm.Machine.Exports.Logins.{IsEphemeral, IsProof}
use evnx_crypto.Wasm.Machine.Keep.{release}
use evnx_crypto.Wasm.Machine.Memory.{Memory}
use evnx_crypto.Wasm.Machine.Slots.{free_slot, free_slot-AllSlots}
use evnx_crypto.Wasm.Machine.Sound.{AllWiped, append-AllWiped, IsSound}

module _ (c : Crates) (w : IsWiping c.zeroize) (ml : IsMlKem c.mlkem) where
  zeroize-wiped : (b : Bytes) → c.zeroize.zeroize b ≡ zeros (length (c.zeroize.zeroize b))
  zeroize-wiped b = let e = w.zeroize-zeros b in grind (arith, e, length-replicate)

  pub destroy_master_key-AllWiped :
      (h : MasterKeyHandle) → AllWiped c (Destroy.destroy_master_key c h)
  unfolding Destroy.destroy_master_key MasterKey.drop
  destroy_master_key-AllWiped h = (zeroize-wiped (h.inner.bytes), tt)

  pub destroy_vault_key-AllWiped : (h : VaultKeyHandle) → AllWiped c (Destroy.destroy_vault_key c h)
  unfolding Destroy.destroy_vault_key VaultKey.drop
  destroy_vault_key-AllWiped h = (zeroize-wiped (h.inner.bytes), tt)

  pub destroy_keypair-AllWiped : (h : KeypairHandle c) → AllWiped c (Destroy.destroy_keypair c h)
  unfolding Destroy.destroy_keypair UserKeypair.drop
  destroy_keypair-AllWiped h = (
    zeroize-wiped (h.inner.ed25519_private_seed),
    (zeroize-wiped (h.inner.x25519_private), (ml.drop-zeros h.inner.mlkem_decap, tt)),
  )

  pub destroy_ephemeral-AllWiped :
      (h : SrpEphemeralHandle) → AllWiped c (Destroy.destroy_ephemeral c h)
  unfolding Destroy.destroy_ephemeral Drop.drop_ephemeral
  destroy_ephemeral-AllWiped h =
      (zeroize-wiped (h.inner.private_a), (zeroize-wiped (h.inner.public_a), tt))

  pub destroy_proof-AllWiped : (h : SrpProofHandle c) → AllWiped c (Destroy.destroy_proof c h)
  unfolding Destroy.destroy_proof Drop.drop_proof
  destroy_proof-AllWiped h = (zeroize-wiped (h.inner.client_proof), ((h.inner.verifier, refl), tt))

  module _ (m : Memory c) (s : IsSound m) where
    pub destroy_master_key-IsSound :
        (i : ℕ) (h : MasterKeyHandle)
        → IsSound (
            release
              (record m { master_keys = free_slot i m.master_keys })
              (Destroy.destroy_master_key c h))
    destroy_master_key-IsSound i h = record {
      master_keys =
          free_slot-AllSlots (λ (k : MasterKeyHandle). IsMasterKey k.inner) i m.master_keys
            s.master_keys;
      vault_keys = s.vault_keys;
      keypairs = s.keypairs;
      ephemerals = s.ephemerals;
      proofs = s.proofs;
      released =
          append-AllWiped c m.released (Destroy.destroy_master_key c h) s.released
            (destroy_master_key-AllWiped h);
    }

    pub destroy_vault_key-IsSound :
        (i : ℕ) (h : VaultKeyHandle)
        → IsSound (
            release
              (record m { vault_keys = free_slot i m.vault_keys })
              (Destroy.destroy_vault_key c h))
    destroy_vault_key-IsSound i h = record {
      master_keys = s.master_keys;
      vault_keys =
          free_slot-AllSlots (λ (k : VaultKeyHandle). IsVaultKey k.inner) i m.vault_keys
            s.vault_keys;
      keypairs = s.keypairs;
      ephemerals = s.ephemerals;
      proofs = s.proofs;
      released =
          append-AllWiped c m.released (Destroy.destroy_vault_key c h) s.released
            (destroy_vault_key-AllWiped h);
    }

    pub destroy_keypair-IsSound :
        (i : ℕ) (h : KeypairHandle c)
        → IsSound
            (release (record m { keypairs = free_slot i m.keypairs }) (Destroy.destroy_keypair c h))
    destroy_keypair-IsSound i h = record {
      master_keys = s.master_keys;
      vault_keys = s.vault_keys;
      keypairs =
          free_slot-AllSlots (λ (k : KeypairHandle c). IsUserKeypair c k.inner) i m.keypairs
            s.keypairs;
      ephemerals = s.ephemerals;
      proofs = s.proofs;
      released =
          append-AllWiped c m.released (Destroy.destroy_keypair c h) s.released
            (destroy_keypair-AllWiped h);
    }

    pub destroy_ephemeral-IsSound :
        (i : ℕ) (h : SrpEphemeralHandle)
        → IsSound (
            release
              (record m { ephemerals = free_slot i m.ephemerals })
              (Destroy.destroy_ephemeral c h))
    destroy_ephemeral-IsSound i h = record {
      master_keys = s.master_keys;
      vault_keys = s.vault_keys;
      keypairs = s.keypairs;
      ephemerals =
          free_slot-AllSlots (λ (k : SrpEphemeralHandle). IsEphemeral c k.inner) i m.ephemerals
            s.ephemerals;
      proofs = s.proofs;
      released =
          append-AllWiped c m.released (Destroy.destroy_ephemeral c h) s.released
            (destroy_ephemeral-AllWiped h);
    }

    pub destroy_proof-IsSound :
        (i : ℕ) (h : SrpProofHandle c)
        → IsSound (release (record m { proofs = free_slot i m.proofs }) (Destroy.destroy_proof c h))
    destroy_proof-IsSound i h = record {
      master_keys = s.master_keys;
      vault_keys = s.vault_keys;
      keypairs = s.keypairs;
      ephemerals = s.ephemerals;
      proofs = free_slot-AllSlots (λ (k : SrpProofHandle c). IsProof c k.inner) i m.proofs s.proofs;
      released =
          append-AllWiped c m.released (Destroy.destroy_proof c h) s.released
            (destroy_proof-AllWiped h);
    }
