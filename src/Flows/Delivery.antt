-- ===== src/Flows/Delivery.antt =====
-- Proofs that the flows on blobs and shared keys end as they are meant to.
use evnx_crypto.Base.{ℕ, ◌+◌, ◌^◌, ◌<◌, ◌≤◌, ◌≡◌, length, arith, ap}
use evnx_crypto.Base.Bytes.{Bytes, Text, bytes_eq_refl}
use evnx_crypto.Base.Outcome.{ok}
use evnx_crypto.Crates.{Crates, Rng}
use evnx_crypto.Crates.Coding.{IsBase64}
use evnx_crypto.Crates.Curve.{IsEd25519, IsX25519}
use evnx_crypto.Crates.Kdf.{IsHkdf}
use evnx_crypto.Crates.Kem.{IsMlKem}
use evnx_crypto.Crates.Random.{IsFilling}
use evnx_crypto.Crates.Sealing.{IsAead}
use evnx_crypto.Flows.Sharing.{readme_push_and_pull_flow, readme_share_flow, encrypt_and_share}
use evnx_crypto.Keypair.Generate.{generate_keypair}
use evnx_crypto.Keypair.Laws.Identity.{IsUserKeypair, generate_keypair_total}
use evnx_crypto.Keypair.Laws.Share.{WrapsFrom, wrap_for_user_then_unwrap}
use evnx_crypto.Keypair.Laws.Wire.{user_public_keys_round_trip}
use evnx_crypto.Keypair.Types.{UserKeypair}
use evnx_crypto.Keypair.UserKeypair as Own
use evnx_crypto.Keypair.UserPublicKeys as Keys
use evnx_crypto.Keypair.Wrap.{wrap_vault_key_for_user}
use evnx_crypto.Vault.Aad.{length-vault_aad}
use evnx_crypto.Vault.Blob.{encrypt_vault_total}
use evnx_crypto.Vault.Identity.{vault_aad}
use evnx_crypto.Vault.Seal.{encrypt_vault}
use evnx_crypto.Vault.VaultKey
use evnx_crypto.Vault.VaultKey.{IsVaultKey}

module _ (c : Crates) where
  generate-IsVaultKey : (g : Rng c) → IsFilling c.rand → IsVaultKey (VaultKey.generate c g).0
  unfolding VaultKey.generate
  generate-IsVaultKey g f = f.length-fill_bytes 32 g

  -- With crates that behave as documented, an ML-KEM that is correct for the draw that the wrap
  -- makes, a plaintext of at most 2 ^ 32 bytes and a vault id below 2 ^ 31: the example of the
  -- crate's documentation ends with success, so the teammate reads the plaintext.
  pub encrypt_and_share_completes :
      (id : Text) (m : Bytes) (v : ℕ) (g : Rng c)
      → IsHkdf c.hkdf
      → IsAead c.xchacha
      → IsAead c.aes
      → IsFilling c.rand
      → IsEd25519 c.ed25519
      → IsX25519 c.x25519
      → IsMlKem c.mlkem
      → length m ≤ 2 ^ 32
      → length id < 2 ^ 31
      → let (k, g1) = VaultKey.generate c g in
        ((kp : UserKeypair c) (g2 : Rng c)
          → generate_keypair c (encrypt_vault c m k (vault_aad id v) g1).1 ≡ (ok kp, g2)
          → WrapsFrom c g2 kp)
        → (encrypt_and_share c id m v g).0 ≡ ok tt
  unfolding encrypt_and_share
  encrypt_and_share_completes id m v g h ax aa f ed x ml hm hid correct =
      let (k, g1) = VaultKey.generate c g in
      let hk = generate-IsVaultKey g f in
      let (b, g2, en, _, _, de) =
        encrypt_vault_total c m (vault_aad id v) k g1 aa f hk hm
          (omega (arith, length-vault_aad id v)) in
      let after = (encrypt_vault c m k (vault_aad id v) g1).1 in
      let (kp, g3, gk, w) = generate_keypair_total c after h ml ed x in
      let (wr, g4, we, _, _, _, un) =
        wrap_for_user_then_unwrap c k kp g3 ax h f x ml w hk (correct kp g3 gk) in
      ground (arith, en, gk, we, un, de, bytes_eq_refl m)

  -- With crates that behave as documented, an ML-KEM that is correct for the draw that the wrap
  -- makes, a plaintext of at most 2 ^ 32 bytes, a vault id below 2 ^ 31 and a version whose
  -- successor is below 2 ^ 32: the documented flow of a push and a pull ends with success, so the
  -- pull gives the plaintext that was pushed.
  pub push_and_pull_completes :
      (id : Text) (m : Bytes) (v : ℕ) (g : Rng c)
      → IsHkdf c.hkdf
      → IsAead c.xchacha
      → IsAead c.aes
      → IsFilling c.rand
      → IsEd25519 c.ed25519
      → IsX25519 c.x25519
      → IsMlKem c.mlkem
      → length m ≤ 2 ^ 32
      → length id < 2 ^ 31
      → v + 1 < 2 ^ 32
      → ((kp : UserKeypair c) (g1 : Rng c)
          → generate_keypair c g ≡ (ok kp, g1)
          → WrapsFrom c (VaultKey.generate c g1).1 kp)
      → (readme_push_and_pull_flow c id m v g).0 ≡ ok tt
  unfolding readme_push_and_pull_flow
  push_and_pull_completes id m v g h ax aa f ed x ml hm hid hv correct =
      let (kp, g1, gk, w) = generate_keypair_total c g h ml ed x in
      let (k, g2) = VaultKey.generate c g1 in
      let hk = generate-IsVaultKey g1 f in
      let (wr, g3, we, _, _, _, un) =
        wrap_for_user_then_unwrap c k kp g2 ax h f x ml w hk (correct kp g1 gk) in
      let (b, g4, en, _, _, de) =
        encrypt_vault_total c m (vault_aad id (v + 1)) k g3 aa f hk hm
          (omega (arith, length-vault_aad id (v + 1))) in
      ground (arith, en, gk, we, un, de, bytes_eq_refl m)

  published_keys :
      (kp : UserKeypair c)
      → IsBase64 c.base64
      → IsX25519 c.x25519
      → IsMlKem c.mlkem
      → IsUserKeypair c kp
      → Keys.from_base64 c (Own.x25519_public_base64 c kp) (Own.mlkem_public_base64 c kp)
        ≡ ok (Own.public_keys c kp)
  unfolding Own.x25519_public_base64 Own.mlkem_public_base64 Own.public_keys
  published_keys kp b x m v =
      (user_public_keys_round_trip c (Own.public_keys c kp) b
        (rw v.x25519_public_eq (x.length-public_to_bytes _))
        (rw v.mlkem_public_eq (m.length-to_bytes _))).0

  -- With crates that behave as documented, an ML-KEM that is correct for the two draws that the
  -- wraps make, a plaintext of at most 2 ^ 32 bytes and a vault id below 2 ^ 31: the documented
  -- flow of sharing a vault with a collaborator ends with success, so the collaborator's key opens
  -- the blob to the plaintext.
  pub share_completes :
      (id : Text) (m : Bytes) (v : ℕ) (g : Rng c)
      → IsBase64 c.base64
      → IsHkdf c.hkdf
      → IsAead c.xchacha
      → IsAead c.aes
      → IsFilling c.rand
      → IsEd25519 c.ed25519
      → IsX25519 c.x25519
      → IsMlKem c.mlkem
      → length m ≤ 2 ^ 32
      → length id < 2 ^ 31
      → ((me other : UserKeypair c) (g1 g2 : Rng c)
          → generate_keypair c g ≡ (ok me, g1)
          → generate_keypair c g1 ≡ (ok other, g2)
          → let (k, g3) = VaultKey.generate c g2 in
            let g4 = (wrap_vault_key_for_user c k (Own.public_keys c me) g3).1 in
            WrapsFrom c g3 me × WrapsFrom c (encrypt_vault c m k (vault_aad id v) g4).1 other)
      → (readme_share_flow c id m v g).0 ≡ ok tt
  unfolding readme_share_flow
  share_completes id m v g b64 h ax aa f ed x ml hm hid correct =
      let (me, g1, gm, wm) = generate_keypair_total c g h ml ed x in
      let (other, g2, go, wo) = generate_keypair_total c g1 h ml ed x in
      let (k, g3) = VaultKey.generate c g2 in
      let hk = generate-IsVaultKey g2 f in
      let (cm, co) = correct me other g1 g2 gm go in
      let (w1, g4, we1, _, _, _, un1) = wrap_for_user_then_unwrap c k me g3 ax h f x ml wm hk cm in
      let (b, g5, en, _, _, de) =
        encrypt_vault_total c m (vault_aad id v) k g4 aa f hk hm
          (omega (arith, length-vault_aad id v)) in
      let co' : WrapsFrom c g5 other = rw (ap (λ p. p.1) we1, ap (λ p. p.1) en) at co in
      let (w2, g6, we2, _, _, _, un2) =
        wrap_for_user_then_unwrap c k other g5 ax h f x ml wo hk co' in
      ground (
        arith,
        en,
        gm,
        go,
        we1,
        we2,
        un1,
        un2,
        published_keys other b64 x ml wo,
        de,
        bytes_eq_refl m,
      )
