-- ===== src/Wasm/Machine/Sound.antt =====
-- What holds of the memory of src/wasm.rs between two calls, and the answers that keep it.
use evnx_crypto.Base.Bytes.{zeros}
use evnx_crypto.Base.Outcome.{Outcome, ok, err, panic, map, Any, Safe}
use evnx_crypto.Base.{ℕ, ◌≡◌, ◌++◌, List, [], ◌∷◌, length, Option, none, some, refl}
use evnx_crypto.Crates.{Crates, Rng}
use evnx_crypto.Kdf.MasterKey.{IsMasterKey}
use evnx_crypto.Keypair.Laws.Identity.{IsUserKeypair}
use evnx_crypto.Vault.VaultKey.{IsVaultKey}
use evnx_crypto.Wasm.Handles.{
  JsError, MasterKeyHandle, VaultKeyHandle, KeypairHandle, SrpEphemeralHandle, SrpProofHandle,
}
use evnx_crypto.Wasm.Machine.Exports.Logins.{IsEphemeral, IsProof}
use evnx_crypto.Wasm.Machine.Keep.{
  Answer, answer, answer_drawn, borrow, keep, keep_master_key, keep_vault_key, keep_keypair,
  keep_ephemeral, keep_proof,
}
use evnx_crypto.Wasm.Machine.Memory.{Memory, Reply}
use evnx_crypto.Wasm.Machine.Slots.{Slots, AllSlots, get_slot, get_slot-AllSlots, add_slot-AllSlots}
use evnx_crypto.Zeroize.Released.{Released, buffer, skipped}

-- What a drop reaches is all zeros, and what it skips is what the crate leaves of an SRP verifier.
abbrev pub AllWiped : Crates → List Released → Type 0
AllWiped c [] = Unit {0}
AllWiped c (buffer b ∷ r) = (b ≡ zeros (length b)) × AllWiped c r
AllWiped c (skipped b ∷ r) = ((v : c.srp.Verifier) × (b ≡ c.srp.dropped v)) × AllWiped c r

pub append-AllWiped :
    (c : Crates) (xs ys : List Released) → AllWiped c xs → AllWiped c ys → AllWiped c (xs ++ ys)
append-AllWiped c [] ys hx hy = hy
append-AllWiped c (buffer b ∷ xs) ys hx hy = (hx.0, append-AllWiped c xs ys hx.1 hy)
append-AllWiped c (skipped b ∷ xs) ys hx hy = (hx.0, append-AllWiped c xs ys hx.1 hy)

-- Every key that a handle stands for is whole: its length is right, a keypair is derived from its
-- seed, an ephemeral has the public value of its scalar, and a proof is of an accepted exchange.
-- What destroyed handles left is wiped.
pub record IsSound {c : Crates} (m : Memory c) : Type 0 where
  pub master_keys : AllSlots (λ h. IsMasterKey h.inner) m.master_keys
  pub vault_keys : AllSlots (λ h. IsVaultKey h.inner) m.vault_keys
  pub keypairs : AllSlots (λ h. IsUserKeypair c h.inner) m.keypairs
  pub ephemerals : AllSlots (λ h. IsEphemeral c h.inner) m.ephemerals
  pub proofs : AllSlots (λ h. IsProof c h.inner) m.proofs
  pub released : AllWiped c m.released

reply-Safe :
    {A : Type 0} (P : A → Type 0) (reply : A → Reply) (r : Outcome JsError A)
    → Safe P r
    → Safe Any (map reply r)
reply-Safe P reply (ok a) h = tt
reply-Safe P reply (err e) h = tt
reply-Safe P reply panic h = h

module _ {c : Crates} where
  -- The call did not panic, and left a sound memory.
  abbrev pub IsGood : Answer c → Type 0
  IsGood (r, m) = Safe Any r × IsSound m

  pub redrawn : (m : Memory c) (g : Rng c) → IsSound m → IsSound (record m { rng = g })
  redrawn m g s = record {
    master_keys = s.master_keys;
    vault_keys = s.vault_keys;
    keypairs = s.keypairs;
    ephemerals = s.ephemerals;
    proofs = s.proofs;
    released = s.released;
  }

  pub answer-IsGood :
      {A : Type 0} (P : A → Type 0) (reply : A → Reply) (m : Memory c) (r : Outcome JsError A)
      → Safe P r
      → IsSound m
      → IsGood (answer reply m r)
  answer-IsGood P reply m r h s = (reply-Safe P reply r h, s)

  pub answer_drawn-IsGood :
      {A : Type 0} (P : A → Type 0) (reply : A → Reply) (m : Memory c)
      (r : Outcome JsError A × Rng c)
      → Safe P r.0
      → IsSound m
      → IsGood (answer_drawn reply m r)
  answer_drawn-IsGood P reply m r h s = (reply-Safe P reply r.0 h, redrawn m r.1 s)

  found-IsGood :
      {H : Type 0} (e : JsError) (m : Memory c) (o : Option H) (f : H → Answer c)
      → IsSound m
      → ((h : H) → o ≡ some h → IsGood (f h))
      → IsGood (borrow e m o f)
  found-IsGood e m none f s good = (tt, s)
  found-IsGood e m (some h) f s good = good h refl

  pub borrow-IsGood :
      {H : Type 0} (P : H → Type 0) (slots : Slots H) (i : ℕ) (e : JsError) (m : Memory c)
      (f : H → Answer c)
      → AllSlots P slots
      → IsSound m
      → ((h : H) → P h → IsGood (f h))
      → IsGood (borrow e m (get_slot i slots) f)
  borrow-IsGood P slots i e m f all s good =
      found-IsGood e m (get_slot i slots) f s
        (λ h found. good h (get_slot-AllSlots P i slots h all found))

  keep-IsGood :
      {H : Type 0} (P : H → Type 0) (store : H → Memory c) (n : ℕ) (m : Memory c)
      (r : Outcome JsError H)
      → Safe P r
      → IsSound m
      → ((h : H) → P h → IsSound (store h))
      → IsGood (keep store n m r)
  keep-IsGood P store n m (ok h) p s sound = (tt, sound h p)
  keep-IsGood P store n m (err e) p s sound = (tt, s)
  keep-IsGood P store n m panic p s sound = (p, s)

  module _ (m : Memory c) (s : IsSound m) where
    pub keep_master_key-IsGood :
        (r : Outcome JsError MasterKeyHandle)
        → Safe (λ h. IsMasterKey h.inner) r
        → IsGood (keep_master_key m r)
    keep_master_key-IsGood r p =
        keep-IsGood (λ h. IsMasterKey h.inner) _ _ m r p s
          (λ h ok_h. record {
            master_keys =
                add_slot-AllSlots (λ h. IsMasterKey h.inner) h m.master_keys s.master_keys ok_h;
            vault_keys = s.vault_keys;
            keypairs = s.keypairs;
            ephemerals = s.ephemerals;
            proofs = s.proofs;
            released = s.released;
          })

    pub keep_vault_key-IsGood :
        (r : Outcome JsError VaultKeyHandle)
        → Safe (λ h. IsVaultKey h.inner) r
        → IsGood (keep_vault_key m r)
    keep_vault_key-IsGood r p =
        keep-IsGood (λ h. IsVaultKey h.inner) _ _ m r p s
          (λ h ok_h. record {
            master_keys = s.master_keys;
            vault_keys =
                add_slot-AllSlots (λ h. IsVaultKey h.inner) h m.vault_keys s.vault_keys ok_h;
            keypairs = s.keypairs;
            ephemerals = s.ephemerals;
            proofs = s.proofs;
            released = s.released;
          })

    pub keep_keypair-IsGood :
        (r : Outcome JsError (KeypairHandle c))
        → Safe (λ h. IsUserKeypair c h.inner) r
        → IsGood (keep_keypair m r)
    keep_keypair-IsGood r p =
        keep-IsGood (λ h. IsUserKeypair c h.inner) _ _ m r p s
          (λ h ok_h. record {
            master_keys = s.master_keys;
            vault_keys = s.vault_keys;
            keypairs =
                add_slot-AllSlots (λ h. IsUserKeypair c h.inner) h m.keypairs s.keypairs ok_h;
            ephemerals = s.ephemerals;
            proofs = s.proofs;
            released = s.released;
          })

    pub keep_ephemeral-IsGood :
        (r : Outcome JsError SrpEphemeralHandle)
        → Safe (λ h. IsEphemeral c h.inner) r
        → IsGood (keep_ephemeral m r)
    keep_ephemeral-IsGood r p =
        keep-IsGood (λ h. IsEphemeral c h.inner) _ _ m r p s
          (λ h ok_h. record {
            master_keys = s.master_keys;
            vault_keys = s.vault_keys;
            keypairs = s.keypairs;
            ephemerals =
                add_slot-AllSlots (λ h. IsEphemeral c h.inner) h m.ephemerals s.ephemerals ok_h;
            proofs = s.proofs;
            released = s.released;
          })

    pub keep_proof-IsGood :
        (r : Outcome JsError (SrpProofHandle c))
        → Safe (λ h. IsProof c h.inner) r
        → IsGood (keep_proof m r)
    keep_proof-IsGood r p =
        keep-IsGood (λ h. IsProof c h.inner) _ _ m r p s
          (λ h ok_h. record {
            master_keys = s.master_keys;
            vault_keys = s.vault_keys;
            keypairs = s.keypairs;
            ephemerals = s.ephemerals;
            proofs = add_slot-AllSlots (λ h. IsProof c h.inner) h m.proofs s.proofs ok_h;
            released = s.released;
          })
