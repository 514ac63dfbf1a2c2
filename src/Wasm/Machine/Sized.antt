-- ===== src/Wasm/Machine/Sized.antt =====
-- The sizes of what the calls of src/wasm.rs reply, after any session.
use evnx_crypto.Base.Outcome.{Outcome, ok, err, panic, map}
use evnx_crypto.Base.{ℕ, ◌+◌, List, Option, none, some, ◌≡◌, length, refl, arith}
use evnx_crypto.Crates.Coding.{IsBase64, IsWiping}
use evnx_crypto.Crates.Curve.{IsEd25519, IsX25519}
use evnx_crypto.Crates.Kdf.{IsArgon2, IsHkdf}
use evnx_crypto.Crates.Kem.{IsMlKem}
use evnx_crypto.Crates.Random.{IsFilling}
use evnx_crypto.Crates.Sealing.{IsAead}
use evnx_crypto.Crates.{Crates, Rng}
use evnx_crypto.Keypair.Laws.Identity.{IsUserKeypair}
use evnx_crypto.Vault.VaultKey.{IsVaultKey}
use evnx_crypto.Wasm.Calls
use evnx_crypto.Wasm.Draws
use evnx_crypto.Wasm.Handles
use evnx_crypto.Wasm.Handles.{JsError, VaultKeyHandle, KeypairHandle}
use evnx_crypto.Wasm.Machine.Invariant.{memory-IsSound}
use evnx_crypto.Wasm.Machine.Keep.{Answer, borrow}
use evnx_crypto.Wasm.Machine.Memory.{Memory, Call, Reply, fresh}
use evnx_crypto.Wasm.Machine.Run.{run, run_all}
use evnx_crypto.Wasm.Machine.Slots.{get_slot, get_slot-AllSlots}
use evnx_crypto.Wasm.Machine.Sound.{IsSound}
use evnx_crypto.Wasm.Sizes.{
  length-generate_salt, length-encrypt_vault, length-wrap_vault_key, length-decrypt_vault,
  length-encrypt_private_key, length-derive_srp_password, length-public_keys,
  length-compute_verifier, lengths-bundle,
}

-- What the length of a reply is, for the calls that fix it.
abbrev pub IsSized : Call → Reply → Type 0
IsSized Call.generate_salt (Reply.text t) = length t ≡ 44
IsSized (Call.derive_srp_password password salt) (Reply.text t) = length t ≡ 44
IsSized (Call.wrap_vault_key vk mk) (Reply.bytes b) = length b ≡ 72
IsSized (Call.encrypt_vault plaintext vk id v) (Reply.bytes b) = length b ≡ length plaintext + 28
IsSized (Call.decrypt_vault blob vk id v) (Reply.bytes b) = length blob ≡ length b + 28
IsSized (Call.wrap_vault_key_for_user vk x25519 mlkem) (Reply.wrapped b) =
    (length (Handles.encrypted_vault_key b) ≡ 96)
    × (length (Handles.eph_pub_key b) ≡ 44)
    × (length (Handles.mlkem_ciphertext b) ≡ 1452)
IsSized (Call.compute_verifier email password salt) (Reply.verifier r) =
    length (Handles.srp_salt r) ≡ 44
IsSized (Call.encrypt_private_key kp mk) (Reply.text t) = length t ≡ 96
IsSized (Call.ed25519_public_key kp) (Reply.text t) = length t ≡ 44
IsSized (Call.x25519_public_key kp) (Reply.text t) = length t ≡ 44
IsSized (Call.mlkem_public_key kp) (Reply.text t) = length t ≡ 1580
IsSized call r = Unit {0}

module _ {A : Type 0} (P : Reply → Type 0) {s : Reply} where
  of_reply :
      (reply : A → Reply) (a : A)
      → P (reply a)
      → let o : Outcome JsError Reply = ok (reply a) in o ≡ ok s → P s
  of_reply reply a p e = let same : reply a ≡ s = cc in rw (← same) p

  of_answer :
      (reply : A → Reply) (r : Outcome JsError A)
      → ((a : A) → r ≡ ok a → P (reply a))
      → map reply r ≡ ok s
      → P s
  of_answer reply (ok a) p e = of_reply reply a (p a refl) e
  of_answer reply (err f) p e = absurd (ground arith)
  of_answer reply panic p e = absurd (ground arith)

  of_borrow :
      {c : Crates} (e : JsError) (m : Memory c) (o : Option A) (f : A → Answer c)
      → ((h : A) → o ≡ some h → (f h).0 ≡ ok s → P s)
      → (borrow e m o f).0 ≡ ok s
      → P s
  of_borrow e m none f p r = absurd (ground arith)
  of_borrow e m (some h) f p r = p h refl r

module _ (c : Crates) (null_pointer : JsError) (a : IsArgon2 c.argon2) (ad : IsAead c.xchacha)
    (aes : IsAead c.aes) (ed : IsEd25519 c.ed25519) (x : IsX25519 c.x25519) (ml : IsMlKem c.mlkem)
    (f : IsFilling c.rand) (b64 : IsBase64 c.base64) where
  with_vault_key :
      (m : Memory c) (i : ℕ) (P : Reply → Type 0) (g : VaultKeyHandle → Answer c) {s : Reply}
      → IsSound m
      → ((k : VaultKeyHandle) → IsVaultKey k.inner → (g k).0 ≡ ok s → P s)
      → (borrow null_pointer m (get_slot i m.vault_keys) g).0 ≡ ok s
      → P s
  with_vault_key m i P g sound p =
      of_borrow P null_pointer m (get_slot i m.vault_keys) g (λ k e.
        p k (get_slot-AllSlots (λ q. IsVaultKey q.inner) i m.vault_keys k sound.vault_keys e))

  with_keypair :
      (m : Memory c) (i : ℕ) (P : Reply → Type 0) (g : KeypairHandle c → Answer c) {s : Reply}
      → IsSound m
      → ((k : KeypairHandle c) → IsUserKeypair c k.inner → (g k).0 ≡ ok s → P s)
      → (borrow null_pointer m (get_slot i m.keypairs) g).0 ≡ ok s
      → P s
  with_keypair m i P g sound p = of_borrow P null_pointer m (get_slot i m.keypairs) g (λ k e.
      p k (get_slot-AllSlots (λ q. IsUserKeypair c q.inner) i m.keypairs k sound.keypairs e))

  run-IsSized :
      (m : Memory c) (call : Call) {s : Reply}
      → IsSound m
      → (run c null_pointer m call).0 ≡ ok s
      → IsSized call s
  unfolding run
  run-IsSized m Call.generate_salt sound =
      of_reply (IsSized Call.generate_salt) Reply.text _ (length-generate_salt c m.rng b64 f)
  run-IsSized m (Call.derive_srp_password password salt) sound =
      let call = Call.derive_srp_password password salt in
      of_answer (IsSized call) Reply.text (Calls.derive_srp_password c password salt)
        (λ t e. length-derive_srp_password c password salt b64 a e)
  run-IsSized m (Call.wrap_vault_key vk mk) sound =
      let call = Call.wrap_vault_key vk mk in
      with_vault_key m vk (IsSized call) _ sound (λ k hk.
        of_borrow (IsSized call) null_pointer m (get_slot mk m.master_keys) _ (λ h _.
          of_answer (IsSized call) Reply.bytes (Draws.wrap_vault_key c k h m.rng).0
            (λ w e. length-wrap_vault_key c k h m.rng ad f hk e)))
  run-IsSized m (Call.encrypt_vault plaintext vk id v) sound =
      let call = Call.encrypt_vault plaintext vk id v in
      with_vault_key m vk (IsSized call) _ sound (λ k _.
        of_answer (IsSized call) Reply.bytes (Draws.encrypt_vault c plaintext k id v m.rng).0
          (λ b e. length-encrypt_vault c plaintext k id v m.rng aes e))
  run-IsSized m (Call.decrypt_vault blob vk id v) sound =
      let call = Call.decrypt_vault blob vk id v in
      with_vault_key m vk (IsSized call) _ sound (λ k hk.
        of_answer (IsSized call) Reply.bytes (Calls.decrypt_vault c blob k id v)
          (λ p e. length-decrypt_vault c blob k id v aes hk e))
  run-IsSized m (Call.wrap_vault_key_for_user vk x25519 mlkem) sound =
      let call = Call.wrap_vault_key_for_user vk x25519 mlkem in
      with_vault_key m vk (IsSized call) _ sound (λ k hk.
        of_answer (IsSized call) Reply.wrapped
          (Draws.wrap_vault_key_for_user c k x25519 mlkem m.rng).0
          (λ b e. lengths-bundle c k x25519 mlkem m.rng b64 ad f x ml hk e))
  run-IsSized m (Call.compute_verifier email password salt) sound =
      let call = Call.compute_verifier email password salt in
      of_answer (IsSized call) Reply.verifier (Calls.compute_verifier c email password salt)
        (λ r e. length-compute_verifier c email password salt b64 e)
  run-IsSized m (Call.encrypt_private_key kp mk) sound =
      let call = Call.encrypt_private_key kp mk in
      with_keypair m kp (IsSized call) _ sound (λ p v.
        of_borrow (IsSized call) null_pointer m (get_slot mk m.master_keys) _ (λ h _.
          of_answer (IsSized call) Reply.text (Draws.encrypt_private_key c p h m.rng).0
            (λ t e. length-encrypt_private_key c p h m.rng b64 ad f v e)))
  run-IsSized m (Call.ed25519_public_key kp) sound =
      let call = Call.ed25519_public_key kp in
      with_keypair m kp (IsSized call) _ sound
        (λ p v. of_reply (IsSized call) Reply.text _ (length-public_keys c p b64 ed x ml v).0)
  run-IsSized m (Call.x25519_public_key kp) sound =
      let call = Call.x25519_public_key kp in
      with_keypair m kp (IsSized call) _ sound
        (λ p v. of_reply (IsSized call) Reply.text _ (length-public_keys c p b64 ed x ml v).1)
  run-IsSized m (Call.mlkem_public_key kp) sound =
      let call = Call.mlkem_public_key kp in
      with_keypair m kp (IsSized call) _ sound
        (λ p v. of_reply (IsSized call) Reply.text _ (length-public_keys c p b64 ed x ml v).2)
  run-IsSized m call sound = λ _. tt

  -- With crates that behave as documented: after any sequence of calls from JavaScript on a fresh
  -- memory, a call that succeeds replies at the size that its interface has: 44 characters for a
  -- generated salt, an SRP password input, the salt of a verifier and an Ed25519 or X25519 public
  -- key, 1580 for an ML-KEM public key, 96 for a sealed private key, 72 bytes for a wrapped vault
  -- key, 28 more than the plaintext for a blob, 28 less than the blob for what it opens to, and 96,
  -- 44 and 1452 characters for the three texts of a bundle.
  pub replies-IsSized :
      (g : Rng c) (before : List Call) (call : Call) {r : Reply}
      → IsHkdf c.hkdf
      → IsWiping c.zeroize
      → (run c null_pointer (run_all c null_pointer before (fresh c g)) call).0 ≡ ok r
      → IsSized call r
  replies-IsSized g before call h w =
      let sound = memory-IsSound c null_pointer a ad h ed x ml f w g before in
      run-IsSized (run_all c null_pointer before (fresh c g)) call sound
