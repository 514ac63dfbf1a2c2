-- ===== src/Wasm/Machine/Lifecycle.antt =====
-- The life of a handle of src/wasm.rs: given out by a call that makes a value of its class, alive
-- until it is destroyed, and refused from then on.
use evnx_crypto.Base.Outcome.{ok, err, panic}
use evnx_crypto.Base.{ℕ, List, some, ◌≡◌, arith}
use evnx_crypto.Crates.Coding.{IsWiping}
use evnx_crypto.Crates.Kem.{IsMlKem}
use evnx_crypto.Crates.{Crates, Rng}
use evnx_crypto.Wasm.Handles.{
  JsError, MasterKeyHandle, VaultKeyHandle, KeypairHandle, SrpEphemeralHandle, SrpProofHandle,
}
use evnx_crypto.Wasm.Machine.Classes.{
  Value, value_of, Class, unused, full, place_of, borrows, destroy, Kind, nothing, a_text,
  some_bytes, a_verdict, a_bundle, a_verifier, handle_of, kind,
}
use evnx_crypto.Wasm.Machine.Ends.{Among, refused, destroyed, Wipes, destroy-Wipes}
use evnx_crypto.Wasm.Machine.Keep.{Answer}
use evnx_crypto.Wasm.Machine.Lasting.{AllKeep, full_value, value_full, run_all_keeps}
use evnx_crypto.Wasm.Machine.Memory.{Memory, Call, Reply, fresh}
use evnx_crypto.Wasm.Machine.Places.{place_new, stays_empty}
use evnx_crypto.Wasm.Machine.Run.{run, run_all}

module _ (c : Crates) (null_pointer : JsError) where
  -- The number was not in use, and is a live handle of this class now.
  abbrev GivenOut : Class → ℕ → Memory c → Memory c → Type 0
  GivenOut k i m m' = (place_of m k i ≡ unused) × (place_of m' k i ≡ full)

  abbrev HasKind : Kind → Reply → Memory c → Memory c → Type 0
  HasKind nothing Reply.done m m' = Unit {0}
  HasKind a_text (Reply.text s) m m' = Unit {0}
  HasKind some_bytes (Reply.bytes b) m m' = Unit {0}
  HasKind a_verdict (Reply.verdict b) m m' = Unit {0}
  HasKind a_bundle (Reply.wrapped b) m m' = Unit {0}
  HasKind a_verifier (Reply.verifier b) m m' = Unit {0}
  HasKind (handle_of k) (Reply.handle i) m m' = GivenOut k i m m'
  HasKind k r m m' = ⊥

  abbrev IsTyped : Kind → Memory c → Answer c → Type 0
  IsTyped k m (ok r, m') = HasKind k r m m'
  IsTyped k m (err e, m') = Unit {0}
  IsTyped k m (panic, m') = Unit {0}

  run-IsTyped : (m : Memory c) (call : Call) → IsTyped (kind call) m (run c null_pointer m call)
  unfolding run
  run-IsTyped m Call.create_vault_key = place_new m.vault_keys _
  run-IsTyped m Call.generate_client_ephemeral =
      grind (arith, λ (h : SrpEphemeralHandle). place_new m.ephemerals h)
  run-IsTyped m Call.generate_keypair =
      grind (arith, λ (h : KeypairHandle c). place_new m.keypairs h)
  run-IsTyped m (Call.derive_master_key password salt) =
      grind (arith, λ (h : MasterKeyHandle). place_new m.master_keys h)
  run-IsTyped m (Call.unwrap_vault_key wrapped mk) =
      grind (arith, λ (h : VaultKeyHandle). place_new m.vault_keys h)
  run-IsTyped m (Call.unwrap_shared_vault_key kp key eph ct) =
      grind (arith, λ (h : VaultKeyHandle). place_new m.vault_keys h)
  run-IsTyped m (Call.compute_client_proof email password salt b e) =
      grind (arith, λ (h : SrpProofHandle c). place_new m.proofs h)
  run-IsTyped m (Call.decrypt_private_key sealed mk) =
      grind (arith, λ (h : KeypairHandle c). place_new m.keypairs h)
  -- The other calls give out no handle.
  run-IsTyped m call = ground arith

  typed_reply :
      (k : Kind) (m : Memory c) (a : Answer c) {r : Reply}
      → IsTyped k m a
      → a.0 ≡ ok r
      → HasKind k r m a.1
  typed_reply k m (ok s, m') {r} t e = let same : s ≡ r = cc in rw (← same) t
  typed_reply k m (err f, m') t e = absurd (ground arith)
  typed_reply k m (panic, m') t e = absurd (ground arith)

  given_out :
      (m : Memory c) (call : Call) (k : Class) {i : ℕ}
      → kind call ≡ handle_of k
      → (run c null_pointer m call).0 ≡ ok (Reply.handle i)
      → GivenOut k i m (run c null_pointer m call).1
  given_out m call k {i} made e =
      rw made at (typed_reply (kind call) m (run c null_pointer m call) (run-IsTyped m call) e)

  -- With a `zeroize` and an ML-KEM that behave as documented: where, after any sequence of calls
  -- from JavaScript on a fresh memory, a call gives out a handle of a class, that handle was not in
  -- use before, and it stands for one value from then on, over any further calls that do not
  -- destroy it; destroying it then succeeds and releases that value, leaving zeros for a master
  -- key, for a vault key, for all three private keys of a keypair, for both numbers of an ephemeral
  -- and for the client's proof, while the verifier of a proof, which holds the session key, is left
  -- as the `srp` crate leaves it; and after that, whatever calls are made, every call that borrows
  -- the handle is refused with the error of the glue and changes nothing.
  pub handle_life :
      (g : Rng c) (before between after : List Call) (call use_of : Call) (k : Class) (i : ℕ)
      → IsWiping c.zeroize
      → IsMlKem c.mlkem
      → kind call ≡ handle_of k
      → AllKeep k i between
      → Among c null_pointer (k, i) (borrows use_of)
      → let m = run_all c null_pointer before (fresh c g) in
        let (a, m1) = run c null_pointer m call in
        let m2 = run_all c null_pointer between m1 in
        let (a', m3) = run c null_pointer m2 (destroy k i) in
        let m4 = run_all c null_pointer after m3 in
        a ≡ ok (Reply.handle i)
        → (h : Value c k) × (place_of m k i ≡ unused)
          × (value_of m1 k i ≡ some h)
          × (value_of m2 k i ≡ some h)
          × (a' ≡ ok Reply.done)
          × Wipes c null_pointer k h m2 m3
          × (run c null_pointer m4 use_of ≡ (err null_pointer, m4))
  handle_life g before between after call use_of k i w ml made keeps borrowed e =
      let m = run_all c null_pointer before (fresh c g) in
      let m1 = (run c null_pointer m call).1 in
      let m2 = run_all c null_pointer between m1 in
      let m3 = (run c null_pointer m2 (destroy k i)).1 in
      let (new, live) = given_out m call k made e in
      let (h, at) = full_value c null_pointer i k m1 live in
      let lasts = run_all_keeps c null_pointer i k h between m1 keeps at in
      let (gone, dead) =
        destroyed c null_pointer k i m2 (value_full c null_pointer i k m2 h lasts) in
      let stays = stays_empty c null_pointer i k after m3 dead in
      (
        h,
        new,
        at,
        lasts,
        gone,
        destroy-Wipes c null_pointer k i m2 h w ml lasts,
        refused c null_pointer k i (run_all c null_pointer after m3) use_of stays borrowed,
      )
