-- ===== src/Wasm/Machine/Ends.antt =====
-- The end of a handle of src/wasm.rs: what `destroy` does to it, and that it is refused afterwards.
use evnx_crypto.Base.Bytes.{zeros}
use evnx_crypto.Base.Outcome.{ok, err}
use evnx_crypto.Base.{ℕ, zero, suc, List, [], ◌∷◌, ◌≡◌, ◌⊎◌, none, some, refl, arith, ◌++◌, length}
use evnx_crypto.Crates.Coding.{IsWiping}
use evnx_crypto.Crates.Kem.{IsMlKem}
use evnx_crypto.Crates.{Crates}
use evnx_crypto.Kdf.MasterKey
use evnx_crypto.Keypair.UserKeypair
use evnx_crypto.Srp.Drop
use evnx_crypto.Vault.VaultKey
use evnx_crypto.Wasm.Destroy
use evnx_crypto.Wasm.Handles.{JsError}
use evnx_crypto.Wasm.Machine.Classes.{
  Class, master_key, vault_key, keypair, ephemeral, proof, empty, full, place, place_of, borrows,
  destroy, Value, value_of,
}
use evnx_crypto.Wasm.Machine.Lasting.{get_slot-full}
use evnx_crypto.Wasm.Machine.Memory.{Memory, Call, Reply}
use evnx_crypto.Wasm.Machine.Places.{place_freed}
use evnx_crypto.Wasm.Machine.Run.{run}
use evnx_crypto.Wasm.Machine.Slots.{Slots, get_slot}
use evnx_crypto.Zeroize.Released.{Released, buffer, skipped}

module _ (c : Crates) (null_pointer : JsError) where
  get_slot-empty :
      {H : Type 0} (i : ℕ) (slots : Slots H) → place i slots ≡ empty → get_slot i slots ≡ none
  get_slot-empty i [] e = cc
  get_slot-empty zero (none ∷ r) e = refl
  get_slot-empty zero (some h ∷ r) e = cc
  get_slot-empty (suc i) (s ∷ r) e = get_slot-empty i r e

  abbrev pub Among : Class × ℕ → List (Class × ℕ) → Type 0
  Among x [] = ⊥
  Among x (y ∷ r) = (x ≡ y) ⊎ Among x r

  -- A call that borrows a destroyed handle.
  pub refused :
      (k : Class) (i : ℕ) (m : Memory c) (call : Call)
      → place_of m k i ≡ empty
      → Among (k, i) (borrows call)
      → run c null_pointer m call ≡ (err null_pointer, m)
  unfolding run
  refused master_key i m call e b = ground (arith, get_slot-empty i m.master_keys e)
  refused vault_key i m call e b = ground (arith, get_slot-empty i m.vault_keys e)
  refused keypair i m call e b = ground (arith, get_slot-empty i m.keypairs e)
  refused ephemeral i m call e b = ground (arith, get_slot-empty i m.ephemerals e)
  refused proof i m call e b = ground (arith, get_slot-empty i m.proofs e)

  -- A live handle is destroyed.
  pub destroyed :
      (k : Class) (i : ℕ) (m : Memory c)
      → place_of m k i ≡ full
      → let (r, m') = run c null_pointer m (destroy k i) in
        (r ≡ ok Reply.done) × (place_of m' k i ≡ empty)
  unfolding run
  destroyed master_key i m e =
      ground (arith, place_freed i m.master_keys e, get_slot-full i m.master_keys e)
  destroyed vault_key i m e =
      ground (arith, place_freed i m.vault_keys e, get_slot-full i m.vault_keys e)
  destroyed keypair i m e = ground (arith, place_freed i m.keypairs e, get_slot-full i m.keypairs e)
  destroyed ephemeral i m e =
      ground (arith, place_freed i m.ephemerals e, get_slot-full i m.ephemerals e)
  destroyed proof i m e = ground (arith, place_freed i m.proofs e, get_slot-full i m.proofs e)

  -- What has to be left of a value of the class, whatever the drops do: zeros for every secret, and
  -- for a proof, whose verifier is skipped, what the crate leaves of that.
  abbrev pub remains : (k : Class) → Value c k → List Released
  remains master_key h = buffer (zeros (length h.inner.bytes)) ∷ []
  remains vault_key h = buffer (zeros (length h.inner.bytes)) ∷ []
  remains keypair h =
      buffer (zeros (length h.inner.ed25519_private_seed))
      ∷ buffer (zeros (length h.inner.x25519_private))
      ∷ buffer (zeros (length (c.mlkem.drop h.inner.mlkem_decap)))
      ∷ []
  remains ephemeral h =
      buffer (zeros (length h.inner.private_a)) ∷ buffer (zeros (length h.inner.public_a)) ∷ []
  remains proof h =
      buffer (zeros (length h.inner.client_proof)) ∷ skipped (c.srp.dropped h.inner.verifier) ∷ []

  -- Between the two memories the value was released, and that is what is left of it.
  abbrev pub Wipes : (k : Class) → Value c k → Memory c → Memory c → Type 0
  Wipes k h m m' = m'.released ≡ m.released ++ remains k h

  pub destroy-Wipes :
      (k : Class) (i : ℕ) (m : Memory c) (h : Value c k)
      → IsWiping c.zeroize
      → IsMlKem c.mlkem
      → value_of m k i ≡ some h
      → Wipes k h m (run c null_pointer m (destroy k i)).1
  unfolding run Destroy.destroy_master_key Destroy.destroy_vault_key Destroy.destroy_keypair
      Destroy.destroy_ephemeral Destroy.destroy_proof UserKeypair.drop Drop.drop_ephemeral
      Drop.drop_proof MasterKey.drop VaultKey.drop
  destroy-Wipes master_key i m h w ml at = rw (at, w.zeroize-zeros h.inner.bytes)
  destroy-Wipes vault_key i m h w ml at = rw (at, w.zeroize-zeros h.inner.bytes)
  destroy-Wipes keypair i m h w ml at = rw (
    at,
    w.zeroize-zeros h.inner.ed25519_private_seed,
    w.zeroize-zeros h.inner.x25519_private,
    ← ml.drop-zeros h.inner.mlkem_decap,
  )
  destroy-Wipes ephemeral i m h w ml at =
      rw (at, w.zeroize-zeros h.inner.private_a, w.zeroize-zeros h.inner.public_a)
  destroy-Wipes proof i m h w ml at = rw (at, w.zeroize-zeros h.inner.client_proof)
