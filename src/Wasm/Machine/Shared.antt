-- ===== src/Wasm/Machine/Shared.antt =====
-- Two browsers, each with its own memory: one shares a vault with the user of the other.
use evnx_crypto.Base.Bytes.{Bytes, Text}
use evnx_crypto.Base.Outcome.{ok}
use evnx_crypto.Base.{ℕ, List, some, ◌≡◌, ◌^◌, ◌≤◌, ◌<◌, inl, inr, length, arith, Option-cases}
use evnx_crypto.Crates.Coding.{IsBase64, IsWiping}
use evnx_crypto.Crates.Curve.{IsEd25519, IsX25519}
use evnx_crypto.Crates.Kdf.{IsArgon2, IsHkdf}
use evnx_crypto.Crates.Kem.{IsMlKem}
use evnx_crypto.Crates.Random.{IsFilling}
use evnx_crypto.Crates.Sealing.{IsAead}
use evnx_crypto.Crates.{Crates, Rng}
use evnx_crypto.Keypair.Laws.Identity.{IsUserKeypair}
use evnx_crypto.Keypair.Laws.Share.{WrapsFrom}
use evnx_crypto.Vault.VaultKey.{IsVaultKey}
use evnx_crypto.Wasm.Calls
use evnx_crypto.Wasm.Draws
use evnx_crypto.Wasm.Handles.{
  JsError, VaultKeyHandle, KeypairHandle, WrappedKeyBundle, encrypted_vault_key, eph_pub_key,
  mlkem_ciphertext, x25519_public_key, mlkem_public_key,
}
use evnx_crypto.Wasm.Machine.Blobs.{sealing_key, opened_by_key}
use evnx_crypto.Wasm.Machine.Classes.{vault_key, keypair}
use evnx_crypto.Wasm.Machine.Invariant.{memory-IsSound}
use evnx_crypto.Wasm.Machine.Lasting.{AllKeep, run_all_keeps}
use evnx_crypto.Wasm.Machine.Memory.{Memory, Call, Reply, fresh}
use evnx_crypto.Wasm.Machine.Restored.{get_slot_new}
use evnx_crypto.Wasm.Machine.Run.{run, run_all}
use evnx_crypto.Wasm.Machine.Slots.{get_slot, get_slot-AllSlots}
use evnx_crypto.Wasm.Sharing.{browser_share_round_trip}
use evnx_crypto.Wasm.Vaults.{browser_round_trip}

module _ (c : Crates) (null_pointer : JsError) where
  -- A call that published the public keys had a keypair behind its handle.
  publishing_keypair :
      (m : Memory c) (j : ℕ) {x25519 mlkem : Text}
      → (run c null_pointer m (Call.x25519_public_key j)).0 ≡ ok (Reply.text x25519)
      → (run c null_pointer m (Call.mlkem_public_key j)).0 ≡ ok (Reply.text mlkem)
      → (kp : KeypairHandle c) × (get_slot j m.keypairs ≡ some kp)
        × (x25519 ≡ x25519_public_key c kp)
        × (mlkem ≡ mlkem_public_key c kp)
  unfolding run
  publishing_keypair m j e e' = elim (Option-cases (get_slot j m.keypairs)) [
    | inl none_at ↦ absurd (ground arith)
    | inr (kp, at) ↦ (kp, at, ground arith, ground arith)
  ]

  shared_by_key :
      (m : Memory c) (i : ℕ) (x25519 mlkem : Text) (k : VaultKeyHandle) {bundle : WrappedKeyBundle}
      → get_slot i m.vault_keys ≡ some k
      → (Draws.wrap_vault_key_for_user c k x25519 mlkem m.rng).0 ≡ ok bundle
      → (run c null_pointer m (Call.wrap_vault_key_for_user i x25519 mlkem)).0
        ≡ ok (Reply.wrapped bundle)
  unfolding run
  shared_by_key m i x25519 mlkem k at e = ground arith

  received :
      (m : Memory c) (j : ℕ) (key eph ct : Text) (kp : KeypairHandle c) (k : VaultKeyHandle)
      → get_slot j m.keypairs ≡ some kp
      → Calls.unwrap_shared_vault_key c kp key eph ct ≡ ok k
      → let (r, m') = run c null_pointer m (Call.unwrap_shared_vault_key j key eph ct) in
        (r ≡ ok (Reply.handle (length m.vault_keys)))
        × (get_slot (length m.vault_keys) m'.vault_keys ≡ some k)
  unfolding run
  received m j key eph ct kp k at e = ground (arith, get_slot_new m.vault_keys k)

  module _ (b64 : IsBase64 c.base64) (a : IsArgon2 c.argon2) (ad : IsAead c.xchacha)
      (aes : IsAead c.aes) (h : IsHkdf c.hkdf) (ed : IsEd25519 c.ed25519) (x : IsX25519 c.x25519)
      (ml : IsMlKem c.mlkem) (f : IsFilling c.rand) (w : IsWiping c.zeroize) where
    -- With crates that behave as documented, a plaintext of at most 2 ^ 32 bytes and a vault id
    -- below 2 ^ 31, and two browsers, each with its own fresh memory and with any calls before:
    -- where one seals the plaintext under a vault key handle, the other publishes the texts of the
    -- public keys of a keypair handle, and ML-KEM is correct for the draw that the wrap for this
    -- keypair makes, then the first browser, after any calls that do not destroy its vault key,
    -- wraps the vault key for these texts, and the second, after any calls that do not destroy its
    -- keypair, unwraps the texts of the bundle to a handle that opens the blob, at the same vault
    -- id and version, to the plaintext.
    pub shared_blob_opens :
        (g g' : Rng c) (before between there later : List Call) (plaintext : Bytes) (i j : ℕ)
        (id : Text) (v : ℕ) {blob : Bytes} {x25519 mlkem : Text}
        → length plaintext ≤ 2 ^ 32
        → length id < 2 ^ 31
        → AllKeep vault_key i between
        → AllKeep keypair j later
        → let mine = run_all c null_pointer before (fresh c g) in
          let (sealed, m1) = run c null_pointer mine (Call.encrypt_vault plaintext i id v) in
          let m2 = run_all c null_pointer between m1 in
          let theirs = run_all c null_pointer there (fresh c g') in
          let n = run_all c null_pointer later theirs in
          sealed ≡ ok (Reply.bytes blob)
          → (run c null_pointer theirs (Call.x25519_public_key j)).0 ≡ ok (Reply.text x25519)
          → (run c null_pointer theirs (Call.mlkem_public_key j)).0 ≡ ok (Reply.text mlkem)
          → ((kp : KeypairHandle c)
              → get_slot j theirs.keypairs ≡ some kp
              → WrapsFrom c m2.rng kp.inner)
          → (bundle : WrappedKeyBundle) × (k : ℕ) × ((run c null_pointer m2
                (Call.wrap_vault_key_for_user i x25519 mlkem)).0
              ≡ ok (Reply.wrapped bundle))
            × let (unwrapped, n1) = run c null_pointer n (
                Call.unwrap_shared_vault_key j
                  (encrypted_vault_key bundle)
                  (eph_pub_key bundle)
                  (mlkem_ciphertext bundle)) in
              (unwrapped ≡ ok (Reply.handle k))
              × ((run c null_pointer n1 (Call.decrypt_vault blob k id v)).0
                  ≡ ok (Reply.bytes plaintext))
    shared_blob_opens g g' before between there later plaintext i j id v {blob} {x25519} {mlkem} hp
          hid keep keep_pair sealed published published' correct =
        let mine = run_all c null_pointer before (fresh c g) in
        let m1 = (run c null_pointer mine (Call.encrypt_vault plaintext i id v)).1 in
        let m2 = run_all c null_pointer between m1 in
        let theirs = run_all c null_pointer there (fresh c g') in
        let n = run_all c null_pointer later theirs in
        let s = memory-IsSound c null_pointer a ad h ed x ml f w g before in
        let s' = memory-IsSound c null_pointer a ad h ed x ml f w g' there in
        let (k, here, made, at) = sealing_key c null_pointer mine plaintext i id v sealed in
        let hk : IsVaultKey k.inner =
          get_slot-AllSlots (λ q. IsVaultKey q.inner) i mine.vault_keys k s.vault_keys here in
        let (blob', _, e, _, opened) =
          browser_round_trip c plaintext k id v mine.rng aes f hk hp hid in
        let kept = run_all_keeps c null_pointer i vault_key k between m1 keep at in
        let (kp, has, ex, em) = publishing_keypair theirs j published published' in
        let hu : IsUserKeypair c kp.inner =
          get_slot-AllSlots (λ q. IsUserKeypair c q.inner) j theirs.keypairs kp s'.keypairs has in
        let (bundle, _, shared, back) =
          browser_share_round_trip c k kp m2.rng b64 ad h f x ml hu hk (correct kp has) in
        let drawn : (Draws.wrap_vault_key_for_user c k x25519 mlkem m2.rng).0 ≡ ok bundle =
          cc (shared, ex, em) in
        let last = run_all_keeps c null_pointer j keypair kp later theirs keep_pair has in
        let key = encrypted_vault_key bundle in
        let eph = eph_pub_key bundle in
        let ct = mlkem_ciphertext bundle in
        let n1 = (run c null_pointer n (Call.unwrap_shared_vault_key j key eph ct)).1 in
        let (answered, new) = received n j key eph ct kp k last back in
        let same : blob' ≡ blob = cc in
        (
          bundle,
          length n.vault_keys,
          shared_by_key m2 i x25519 mlkem k kept drawn,
          (
            answered,
            opened_by_key c null_pointer n1 blob (length n.vault_keys) id v k new
                (rw same at opened),
          ),
        )
