-- ===== src/Keypair/Laws/Identity.antt =====
-- Complete keypairs of src/keypair.rs, and how one seed gives them.
use evnx_crypto.Base.{◌≡◌, refl, length, arith}
use evnx_crypto.Base.Bytes.{Bytes, ascii}
use evnx_crypto.Base.Outcome.{ok}
use evnx_crypto.Crates.{Crates, Rng}
use evnx_crypto.Crates.Curve.{IsEd25519, IsX25519}
use evnx_crypto.Crates.Kdf.{IsHkdf}
use evnx_crypto.Crates.Kem.{IsMlKem}
use evnx_crypto.Keypair.Derive.{derive_x25519_from_ed25519_seed, derive_mlkem_from_ed25519_seed}
use evnx_crypto.Keypair.Generate.{generate_keypair}
use evnx_crypto.Keypair.MlKem768PublicKey as Public
use evnx_crypto.Keypair.Types.{UserKeypair, MlKem768PublicKey}

-- Every part of the keypair is derived from its seed, by the crate's own derivations.
pub record IsUserKeypair (c : Crates) (kp : UserKeypair c) : Type 0 where
  pub seed_length : length kp.ed25519_private_seed ≡ 32
  pub ed25519_public_eq :
      kp.ed25519_public.bytes
      ≡ c.ed25519.verifying_key (c.ed25519.from_bytes kp.ed25519_private_seed)
  pub x25519_derived :
      derive_x25519_from_ed25519_seed c kp.ed25519_private_seed ≡ ok kp.x25519_private
  pub x25519_length : length kp.x25519_private ≡ 32
  pub x25519_public_eq :
      kp.x25519_public.bytes
      ≡ c.x25519.public_to_bytes (c.x25519.static_public (c.x25519.static_from kp.x25519_private))
  pub mlkem_derived :
      derive_mlkem_from_ed25519_seed c kp.ed25519_private_seed
      ≡ ok (kp.mlkem_decap, kp.mlkem_public)
  pub mlkem_public_eq :
      kp.mlkem_public.bytes ≡ c.mlkem.to_bytes (c.mlkem.encapsulation_key kp.mlkem_decap)

module _ (c : Crates) where
  pub derive_x25519_total :
      (seed : Bytes)
      → IsHkdf c.hkdf
      → (x : Bytes) × (derive_x25519_from_ed25519_seed c seed ≡ ok x) × (length x ≡ 32)
  unfolding derive_x25519_from_ed25519_seed
  derive_x25519_total seed h =
      let info = ascii "evnx-x25519-from-ed25519-v1" in
      let (x, e) = h.expand_ok (c.hkdf.extract seed) info 32 (omega arith) in
      (x, rw e, h.length-expand _ info 32 x e)

  pub derive_mlkem_total :
      (seed : Bytes)
      → IsHkdf c.hkdf
      → IsMlKem c.mlkem
      → (dk : c.mlkem.DecapsulationKey) × (pk : MlKem768PublicKey) × (derive_mlkem_from_ed25519_seed
            c seed
          ≡ ok (dk, pk))
        × (pk.bytes ≡ c.mlkem.to_bytes (c.mlkem.encapsulation_key dk))
  unfolding derive_mlkem_from_ed25519_seed Public.from_bytes
  derive_mlkem_total seed h m =
      let info = ascii "evnx/mlkem768/v1" in
      let (s, e) = h.expand_ok (c.hkdf.extract seed) info 64 (omega arith) in
      let dk = c.mlkem.from_seed s in
      let n = m.length-to_bytes (c.mlkem.encapsulation_key dk) in
      (
        dk,
        record { bytes = c.mlkem.to_bytes (c.mlkem.encapsulation_key dk) },
        rw e (ground (arith, n)),
        refl,
      )

  -- There is a complete keypair for each seed.
  pub IsUserKeypair-of_seed :
      (seed : Bytes)
      → IsHkdf c.hkdf
      → IsMlKem c.mlkem
      → length seed ≡ 32
      → (kp : UserKeypair c) × (kp.ed25519_private_seed ≡ seed) × IsUserKeypair c kp
  IsUserKeypair-of_seed seed h m n =
      let (priv, ex, nx) = derive_x25519_total seed h in
      let (dk, pk, ek, pk_eq) = derive_mlkem_total seed h m in
      (
        record {
          ed25519_private_seed = seed;
          ed25519_public = record { bytes = c.ed25519.verifying_key (c.ed25519.from_bytes seed) };
          x25519_private = priv;
          x25519_public = record {
            bytes = c.x25519.public_to_bytes (c.x25519.static_public (c.x25519.static_from priv));
          };
          mlkem_decap = dk;
          mlkem_public = pk;
        },
        refl,
        record {
          seed_length = n;
          ed25519_public_eq = refl;
          x25519_derived = ex;
          x25519_length = nx;
          x25519_public_eq = refl;
          mlkem_derived = ek;
          mlkem_public_eq = pk_eq;
        },
      )

  generate_keypair_lem :
      (g : Rng c) (kp : UserKeypair c)
      → IsEd25519 c.ed25519
      → IsX25519 c.x25519
      → kp.ed25519_private_seed ≡ c.ed25519.to_bytes (c.ed25519.generate g).0
      → IsUserKeypair c kp
      → generate_keypair c g ≡ (ok kp, (c.ed25519.generate g).1)
  unfolding generate_keypair
  generate_keypair_lem g kp ed x e v = ground (
    arith,
    x.static_to_bytes-static_from kp.x25519_private v.x25519_length,
    ed.from_bytes-to_bytes (c.ed25519.generate g).0,
  )

  -- With crates that behave as documented, generating a keypair returns one, without a panic, and
  -- every part of it is derived from its seed.
  pub generate_keypair_total :
      (g : Rng c)
      → IsHkdf c.hkdf
      → IsMlKem c.mlkem
      → IsEd25519 c.ed25519
      → IsX25519 c.x25519
      → (kp : UserKeypair c) × (g' : Rng c) × (generate_keypair c g ≡ (ok kp, g'))
        × IsUserKeypair c kp
  generate_keypair_total g h m ed x =
      let (k, g') = c.ed25519.generate g in
      let (kp, e, v) = IsUserKeypair-of_seed (c.ed25519.to_bytes k) h m (ed.length-to_bytes k) in
      (kp, g', generate_keypair_lem g kp ed x e v, v)
