-- ===== src/Wasm/Machine/Restored.antt =====
-- A vault key of src/wasm.rs that was wrapped under a master key, destroyed and unwrapped again.
use evnx_crypto.Base.Bytes.{Bytes, Text}
use evnx_crypto.Base.Outcome.{ok}
use evnx_crypto.Base.{
  ℕ, List, [], ◌∷◌, refl, some, ◌≡◌, inl, inr, ◌^◌, ◌≤◌, ◌<◌, length, arith, Option-cases,
}
use evnx_crypto.Crates.Coding.{IsWiping}
use evnx_crypto.Crates.Curve.{IsEd25519, IsX25519}
use evnx_crypto.Crates.Kdf.{IsArgon2, IsHkdf}
use evnx_crypto.Crates.Kem.{IsMlKem}
use evnx_crypto.Crates.Random.{IsFilling}
use evnx_crypto.Crates.Sealing.{IsAead}
use evnx_crypto.Crates.{Crates, Rng}
use evnx_crypto.Vault.VaultKey.{IsVaultKey}
use evnx_crypto.Wasm.Account.{browser_wrap_round_trip}
use evnx_crypto.Wasm.Calls
use evnx_crypto.Wasm.Draws
use evnx_crypto.Wasm.Handles.{JsError, MasterKeyHandle, VaultKeyHandle}
use evnx_crypto.Wasm.Machine.Blobs.{sealing_key, opened_by_key}
use evnx_crypto.Wasm.Machine.Classes.{master_key, vault_key}
use evnx_crypto.Wasm.Machine.Invariant.{memory-IsSound}
use evnx_crypto.Wasm.Machine.Lasting.{AllKeep, run_all_keeps}
use evnx_crypto.Wasm.Machine.Memory.{Memory, Call, Reply, fresh}
use evnx_crypto.Wasm.Machine.Run.{run, run_all}
use evnx_crypto.Wasm.Machine.Slots.{Slots, get_slot, add_slot, get_slot-AllSlots}
use evnx_crypto.Wasm.Vaults.{browser_round_trip}

pub get_slot_new :
    {H : Type 0} (slots : Slots H) (h : H) → get_slot (length slots) (add_slot h slots) ≡ some h
get_slot_new [] h = refl
get_slot_new (s ∷ r) h = get_slot_new r h

module _ (c : Crates) (null_pointer : JsError) where
  -- A call that wrapped a vault key had a key and a master key behind its handles.
  wrapping_keys :
      (m : Memory c) (i j : ℕ) {w : Bytes} {k : VaultKeyHandle}
      → get_slot i m.vault_keys ≡ some k
      → (run c null_pointer m (Call.wrap_vault_key i j)).0 ≡ ok (Reply.bytes w)
      → (h : MasterKeyHandle) × (get_slot j m.master_keys ≡ some h)
        × ((Draws.wrap_vault_key c k h m.rng).0 ≡ ok w)
        × (get_slot j (run c null_pointer m (Call.wrap_vault_key i j)).1.master_keys ≡ some h)
  unfolding run
  wrapping_keys m i j there e = elim (Option-cases (get_slot j m.master_keys)) [
    | inl none_at ↦ absurd (ground arith)
    | inr (h, at) ↦ (h, at, ground arith, ground arith)
  ]

  unwrapped :
      (m : Memory c) (w : Bytes) (j : ℕ) (h : MasterKeyHandle) (k : VaultKeyHandle)
      → get_slot j m.master_keys ≡ some h
      → Calls.unwrap_vault_key c w h ≡ ok k
      → let (r, m') = run c null_pointer m (Call.unwrap_vault_key w j) in
        (r ≡ ok (Reply.handle (length m.vault_keys)))
        × (get_slot (length m.vault_keys) m'.vault_keys ≡ some k)
  unfolding run
  unwrapped m w j h k at e = ground (arith, get_slot_new m.vault_keys k)

  module _ (a : IsArgon2 c.argon2) (ad : IsAead c.xchacha) (aes : IsAead c.aes) (h : IsHkdf c.hkdf)
      (ed : IsEd25519 c.ed25519) (x : IsX25519 c.x25519) (ml : IsMlKem c.mlkem)
      (f : IsFilling c.rand) (w : IsWiping c.zeroize) where
    -- With crates that behave as documented, a plaintext of at most 2 ^ 32 bytes and a vault id
    -- below 2 ^ 31: where, after any sequence of calls from JavaScript on a fresh memory, a call
    -- seals the plaintext under a vault key handle, and later, with that handle not destroyed in
    -- between, a call wraps the vault key under a master key handle, then after any further calls
    -- that do not destroy the master key, destroying the vault key included, unwrapping the wrapped
    -- bytes under the master key gives a handle, and that handle opens the blob, at the same vault
    -- id and version, to the plaintext.
    pub restored_key_opens :
        (g : Rng c) (before between after : List Call) (plaintext : Bytes) (i j : ℕ) (id : Text)
        (v : ℕ) {blob wrapped : Bytes}
        → length plaintext ≤ 2 ^ 32
        → length id < 2 ^ 31
        → AllKeep vault_key i between
        → AllKeep master_key j after
        → let m = run_all c null_pointer before (fresh c g) in
          let (sealed, m1) = run c null_pointer m (Call.encrypt_vault plaintext i id v) in
          let m2 = run_all c null_pointer between m1 in
          let (wrap, m3) = run c null_pointer m2 (Call.wrap_vault_key i j) in
          let m4 = run_all c null_pointer after m3 in
          let (unwrap, m5) = run c null_pointer m4 (Call.unwrap_vault_key wrapped j) in
          sealed ≡ ok (Reply.bytes blob)
          → wrap ≡ ok (Reply.bytes wrapped)
          → (n : ℕ) × (unwrap ≡ ok (Reply.handle n))
            × ((run c null_pointer m5 (Call.decrypt_vault blob n id v)).0
                ≡ ok (Reply.bytes plaintext))
    restored_key_opens g before between after plaintext i j id v {blob} {wrapped} hp hid keep
          keep_master sealed wrap =
        let m = run_all c null_pointer before (fresh c g) in
        let m1 = (run c null_pointer m (Call.encrypt_vault plaintext i id v)).1 in
        let m2 = run_all c null_pointer between m1 in
        let m3 = (run c null_pointer m2 (Call.wrap_vault_key i j)).1 in
        let m4 = run_all c null_pointer after m3 in
        let m5 = (run c null_pointer m4 (Call.unwrap_vault_key wrapped j)).1 in
        let s = memory-IsSound c null_pointer a ad h ed x ml f w g before in
        let (k, here, made, there) = sealing_key c null_pointer m plaintext i id v sealed in
        let hk : IsVaultKey k.inner =
          get_slot-AllSlots (λ q. IsVaultKey q.inner) i m.vault_keys k s.vault_keys here in
        let (blob', _, e, _, opened) =
          browser_round_trip c plaintext k id v m.rng aes f hk hp hid in
        let same : blob' ≡ blob = cc in
        let kept = run_all_keeps c null_pointer i vault_key k between m1 keep there in
        let (mk, _, drawn, has_master) = wrapping_keys m2 i j kept wrap in
        let (wrapped', _, e', back) = browser_wrap_round_trip c k mk m2.rng ad h f hk in
        let same' : wrapped' ≡ wrapped = cc in
        let last = run_all_keeps c null_pointer j master_key mk after m3 keep_master has_master in
        let (answered, new) = unwrapped m4 wrapped j mk k last (rw same' at back) in
        (
          length m4.vault_keys,
          answered,
          opened_by_key c null_pointer m5 blob (length m4.vault_keys) id v k new
              (rw same at opened),
        )
