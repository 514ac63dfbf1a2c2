-- ===== src/Wasm/Machine/Blobs.antt =====
-- A blob of src/wasm.rs through the handle that sealed it, over whatever happens in between.
use evnx_crypto.Base.Bytes.{Bytes, Text}
use evnx_crypto.Base.Outcome.{ok}
use evnx_crypto.Base.{ℕ, List, some, ◌≡◌, inl, inr, ◌^◌, ◌≤◌, ◌<◌, length, arith, Option-cases}
use evnx_crypto.Crates.Coding.{IsWiping}
use evnx_crypto.Crates.Curve.{IsEd25519, IsX25519}
use evnx_crypto.Crates.Kdf.{IsArgon2, IsHkdf}
use evnx_crypto.Crates.Kem.{IsMlKem}
use evnx_crypto.Crates.Random.{IsFilling}
use evnx_crypto.Crates.Sealing.{IsAead}
use evnx_crypto.Crates.{Crates, Rng}
use evnx_crypto.Vault.VaultKey.{IsVaultKey}
use evnx_crypto.Wasm.Calls
use evnx_crypto.Wasm.Draws
use evnx_crypto.Wasm.Handles.{JsError, VaultKeyHandle}
use evnx_crypto.Wasm.Machine.Classes.{vault_key}
use evnx_crypto.Wasm.Machine.Invariant.{memory-IsSound}
use evnx_crypto.Wasm.Machine.Lasting.{AllKeep, run_all_keeps}
use evnx_crypto.Wasm.Machine.Memory.{Memory, Call, Reply, fresh}
use evnx_crypto.Wasm.Machine.Run.{run, run_all}
use evnx_crypto.Wasm.Machine.Slots.{get_slot, get_slot-AllSlots}
use evnx_crypto.Wasm.Vaults.{browser_round_trip}

module _ (c : Crates) (null_pointer : JsError) where
  -- A call that sealed a blob had a key behind its handle.
  pub sealing_key :
      (m : Memory c) (plaintext : Bytes) (i : ℕ) (id : Text) (v : ℕ) {b : Bytes}
      → (run c null_pointer m (Call.encrypt_vault plaintext i id v)).0 ≡ ok (Reply.bytes b)
      → (k : VaultKeyHandle) × (get_slot i m.vault_keys ≡ some k)
        × ((Draws.encrypt_vault c plaintext k id v m.rng).0 ≡ ok b)
        × (get_slot i (run c null_pointer m (Call.encrypt_vault plaintext i id v)).1.vault_keys
            ≡ some k)
  unfolding run
  sealing_key m plaintext i id v h = elim (Option-cases (get_slot i m.vault_keys)) [
    | inl e ↦ absurd (ground arith)
    | inr (k, e) ↦ (k, e, ground arith, ground arith)
  ]

  pub opened_by_key :
      (m : Memory c) (blob : Bytes) (i : ℕ) (id : Text) (v : ℕ) (k : VaultKeyHandle) {p : Bytes}
      → get_slot i m.vault_keys ≡ some k
      → Calls.decrypt_vault c blob k id v ≡ ok p
      → (run c null_pointer m (Call.decrypt_vault blob i id v)).0 ≡ ok (Reply.bytes p)
  unfolding run
  opened_by_key m blob i id v k e d = rw e (rw d)

  module _ (a : IsArgon2 c.argon2) (ad : IsAead c.xchacha) (aes : IsAead c.aes) (h : IsHkdf c.hkdf)
      (ed : IsEd25519 c.ed25519) (x : IsX25519 c.x25519) (ml : IsMlKem c.mlkem)
      (f : IsFilling c.rand) (w : IsWiping c.zeroize) where
    -- With crates that behave as documented, a plaintext of at most 2 ^ 32 bytes and a vault id
    -- below 2 ^ 31: where, after any sequence of calls from JavaScript on a fresh memory, a call
    -- seals the plaintext under a vault key handle, opening that blob with the same handle, vault
    -- id and version gives the plaintext, whatever calls are made in between, as long as none of
    -- them destroys that handle.
    pub sealed_blob_lasts :
        (g : Rng c) (before between : List Call) (plaintext : Bytes) (i : ℕ) (id : Text) (v : ℕ)
        {blob : Bytes}
        → length plaintext ≤ 2 ^ 32
        → length id < 2 ^ 31
        → AllKeep vault_key i between
        → let m = run_all c null_pointer before (fresh c g) in
          let (r, m1) = run c null_pointer m (Call.encrypt_vault plaintext i id v) in
          let m2 = run_all c null_pointer between m1 in
          r ≡ ok (Reply.bytes blob)
          → (run c null_pointer m2 (Call.decrypt_vault blob i id v)).0 ≡ ok (Reply.bytes plaintext)
    sealed_blob_lasts g before between plaintext i id v {blob} hp hid spare sealed =
        let m = run_all c null_pointer before (fresh c g) in
        let m1 = (run c null_pointer m (Call.encrypt_vault plaintext i id v)).1 in
        let s = memory-IsSound c null_pointer a ad h ed x ml f w g before in
        let (k, here, made, there) = sealing_key m plaintext i id v sealed in
        let hk : IsVaultKey k.inner =
          get_slot-AllSlots (λ q. IsVaultKey q.inner) i m.vault_keys k s.vault_keys here in
        let (blob', g', e, _, opened) =
          browser_round_trip c plaintext k id v m.rng aes f hk hp hid in
        let same : blob' ≡ blob = cc in
        let last = run_all_keeps c null_pointer i vault_key k between m1 spare there in
        opened_by_key (run_all c null_pointer between m1) blob i id v k last (rw same at opened)
