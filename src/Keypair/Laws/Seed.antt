-- ===== src/Keypair/Laws/Seed.antt =====
-- `generate_keypair` and `from_ed25519_seed_for_test` of src/keypair.rs against each other.
use evnx_crypto.Base.{◌≡◌, arith}
use evnx_crypto.Base.Outcome.{ok}
use evnx_crypto.Crates.{Crates, Rng}
use evnx_crypto.Crates.Curve.{IsEd25519, IsX25519}
use evnx_crypto.Crates.Kdf.{IsHkdf}
use evnx_crypto.Crates.Kem.{IsMlKem}
use evnx_crypto.Keypair.Generate.{generate_keypair}
use evnx_crypto.Keypair.Laws.Identity.{IsUserKeypair, generate_keypair_total}
use evnx_crypto.Keypair.TestSupport.{from_ed25519_seed_for_test}
use evnx_crypto.Keypair.Types.{UserKeypair}

module _ (c : Crates) where
  pub from_seed-IsUserKeypair :
      (kp : UserKeypair c)
      → IsX25519 c.x25519
      → IsUserKeypair c kp
      → from_ed25519_seed_for_test c kp.ed25519_private_seed ≡ ok kp
  unfolding from_ed25519_seed_for_test
  from_seed-IsUserKeypair kp x v =
      ground (arith, x.static_to_bytes-static_from kp.x25519_private v.x25519_length)

  -- With crates that behave as documented: restoring a generated keypair from its seed alone gives
  -- the same keypair, all six fields of it.
  pub generate_then_restore :
      (g : Rng c) {kp : UserKeypair c} {g' : Rng c}
      → IsHkdf c.hkdf
      → IsMlKem c.mlkem
      → IsEd25519 c.ed25519
      → IsX25519 c.x25519
      → generate_keypair c g ≡ (ok kp, g')
      → from_ed25519_seed_for_test c kp.ed25519_private_seed ≡ ok kp
  generate_then_restore g {kp} h m ed x e =
      let (kp', g2, e', v) = generate_keypair_total c g h m ed x in
      let same : kp' ≡ kp = ground (arith, e, e') in rw same at (from_seed-IsUserKeypair kp' x v)
