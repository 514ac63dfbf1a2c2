-- ===== src/Keypair/TestSupport.antt =====
-- `from_ed25519_seed_for_test` and `x25519_private_for_test` of src/keypair.rs, which the feature
-- `test-utils` adds.
use evnx_crypto.Base.Bytes.{Bytes}
use evnx_crypto.Base.Outcome.{Outcome, ok, ◌>>=◌, expect}
use evnx_crypto.Crates.{Crates}
use evnx_crypto.Keypair.Derive.{derive_x25519_from_ed25519_seed, derive_mlkem_from_ed25519_seed}
use evnx_crypto.Keypair.Types.{UserKeypair}

module _ (c : Crates) where
  -- A failed derivation panics.
  unfoldable pub from_ed25519_seed_for_test : Bytes → Outcome ⊥ (UserKeypair c)
  from_ed25519_seed_for_test seed = do
    let signing_key = c.ed25519.from_bytes seed
    x25519_private ← expect (derive_x25519_from_ed25519_seed c seed)
    let x25519_static = c.x25519.static_from x25519_private
    (mlkem_decap, mlkem_public) ← expect (derive_mlkem_from_ed25519_seed c seed)
    ok (record {
      ed25519_private_seed = seed;
      ed25519_public = record { bytes = c.ed25519.verifying_key signing_key };
      x25519_private = c.x25519.static_to_bytes x25519_static;
      x25519_public = record {
        bytes = c.x25519.public_to_bytes (c.x25519.static_public x25519_static);
      };
      mlkem_decap = mlkem_decap;
      mlkem_public = mlkem_public;
    })

  unfoldable pub x25519_private_for_test : UserKeypair c → Bytes
  x25519_private_for_test kp = kp.x25519_private
