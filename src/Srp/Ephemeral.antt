-- ===== src/Srp/Ephemeral.antt =====
-- `generate_client_ephemeral` of src/srp.rs.
use evnx_crypto.Base.Bytes.{all_zero}
use evnx_crypto.Base.Outcome.{ok, fail_if}
use evnx_crypto.Crates.{Crates, Rng}
use evnx_crypto.Crates.Random.{Random, lift, draw, ◌>>=◌, ◌>>◌}
use evnx_crypto.Errors.{CryptoError}
use evnx_crypto.Srp.Types.{SrpClientEphemeral}

unfoldable pub generate_client_ephemeral :
    (c : Crates) → Random (Rng c) CryptoError SrpClientEphemeral
generate_client_ephemeral c = do
  private_a ← draw (c.rand.fill_bytes 64)
  let public_a = c.srp.compute_public_ephemeral private_a
  lift (
      fail_if (all_zero public_a)
        (CryptoError.srp "Generated A = 0 mod N — this should be computationally impossible."))
  lift (ok (record { private_a = private_a; public_a = public_a }))
