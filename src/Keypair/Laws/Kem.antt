-- ===== src/Keypair/Laws/Kem.antt =====
-- The ML-KEM half of the wrap of src/keypair.rs.
use evnx_crypto.Base.{◌≡◌, ◌≢◌, ◌<>◌, inl, inr, length, arith, Option-cases}
use evnx_crypto.Base.Bytes.{Bytes}
use evnx_crypto.Base.Decimal.{decimal}
use evnx_crypto.Base.Outcome.{ok, err}
use evnx_crypto.Crates.{Crates, Rng}
use evnx_crypto.Crates.Kem.{IsMlKem, Decapsulates}
use evnx_crypto.Errors.{invalid_input}
use evnx_crypto.Keypair.Laws.Identity.{IsUserKeypair}
use evnx_crypto.Keypair.MlKem768PublicKey as Public
use evnx_crypto.Keypair.Types.{UserKeypair}
use evnx_crypto.Keypair.Unwrap.{mlkem_decapsulate}
use evnx_crypto.Keypair.Wrap.{mlkem_encapsulate}

module _ (c : Crates) where
  -- Encapsulating to the public key of a complete keypair is encapsulating to its own key.
  pub mlkem_encapsulate_lem :
      (kp : UserKeypair c) (g : Rng c)
      → IsMlKem c.mlkem
      → IsUserKeypair c kp
      → let (r, g') = c.rand.fill_bytes 32 g in
        mlkem_encapsulate c kp.mlkem_public g
        ≡ (ok (c.mlkem.encapsulate_deterministic (c.mlkem.encapsulation_key kp.mlkem_decap) r), g')
  unfolding mlkem_encapsulate Public.as_bytes
  mlkem_encapsulate_lem kp g m v =
      let ek = c.mlkem.encapsulation_key kp.mlkem_decap in
      let (r, g') = c.rand.fill_bytes 32 g in
      let (key, parsed, checked) = m.new-to_bytes ek in
      ground (arith, parsed, checked, m.length-secret ek r, v.mlkem_public_eq)

  -- With an ML-KEM that behaves as documented and that is correct for the draw that is made, and a
  -- complete keypair: encapsulating to its ML-KEM public key succeeds after one draw, with a
  -- ciphertext of 1088 bytes and a secret of 32, and the keypair decapsulates the ciphertext to the
  -- same secret.
  pub encapsulate_then_decapsulate :
      (kp : UserKeypair c) (g : Rng c)
      → IsMlKem c.mlkem
      → IsUserKeypair c kp
      → Decapsulates c.mlkem kp.mlkem_decap (c.rand.fill_bytes 32 g).0
      → (ct : Bytes) × (ss : Bytes) × (mlkem_encapsulate c kp.mlkem_public g
          ≡ (ok (ct, ss), (c.rand.fill_bytes 32 g).1))
        × (length ct ≡ 1088)
        × (length ss ≡ 32)
        × (mlkem_decapsulate c kp ct ≡ ok ss)
  unfolding mlkem_decapsulate
  encapsulate_then_decapsulate kp g m v correct =
      let ek = c.mlkem.encapsulation_key kp.mlkem_decap in
      let (r, g') = c.rand.fill_bytes 32 g in
      let (ct, ss) = c.mlkem.encapsulate_deterministic ek r in
      (
        ct,
        ss,
        mlkem_encapsulate_lem kp g m v,
        m.length-ciphertext ek r,
        m.length-secret ek r,
        ground (arith, correct, m.length-secret ek r),
      )

  -- With an ML-KEM that behaves as documented: each ciphertext of 1088 bytes, genuine or not,
  -- decapsulates to a secret, which has 32 bytes.
  pub mlkem_decapsulate_total :
      (kp : UserKeypair c) (ct : Bytes)
      → IsMlKem c.mlkem
      → length ct ≡ 1088
      → (ss : Bytes) × (mlkem_decapsulate c kp ct ≡ ok ss) × (length ss ≡ 32)
  unfolding mlkem_decapsulate
  mlkem_decapsulate_total kp ct m n =
      let (ss, e) = m.decapsulate_slice_ok kp.mlkem_decap ct n in
      let (_, ns) = m.decapsulate_slice_length kp.mlkem_decap ct ss e in (ss, ground arith, ns)

  pub mlkem_decapsulate_refused :
      (kp : UserKeypair c) (ct : Bytes)
      → IsMlKem c.mlkem
      → length ct ≢ 1088
      → mlkem_decapsulate c kp ct
        ≡ err (
            invalid_input (
              "ML-KEM-768 ciphertext must be "
              <> decimal 1088
              <> " bytes, got "
              <> decimal (length ct)))
  unfolding mlkem_decapsulate
  mlkem_decapsulate_refused kp ct m n =
      elim (Option-cases (c.mlkem.decapsulate_slice kp.mlkem_decap ct)) [
        | inl e ↦ rw e
        | inr (ss, e) ↦ absurd (n (m.decapsulate_slice_length kp.mlkem_decap ct ss e).0)
      ]
