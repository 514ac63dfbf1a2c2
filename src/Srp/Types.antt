-- ===== src/Srp/Types.antt =====
-- The values of src/srp.rs.
use evnx_crypto.Base.Bytes.{Bytes}
use evnx_crypto.Crates.{Crates}

pub record SrpVerifier : Type 0 where
  pub verifier : Bytes
  pub srp_salt : Bytes

pub record SrpClientEphemeral : Type 0 where
  pub private_a : Bytes
  pub public_a : Bytes

pub record SrpClientProof (c : Crates) : Type 0 where
  pub client_proof : Bytes
  pub verifier : c.srp.Verifier
