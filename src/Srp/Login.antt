-- ===== src/Srp/Login.antt =====
-- Proofs about the login steps of src/srp.rs.
use evnx_crypto.Base.{◌≡◌, inr, true, false, length, arith, refl}
use evnx_crypto.Base.Bytes.{Bytes, Text, all_zero}
use evnx_crypto.Base.Outcome.{ok}
use evnx_crypto.Crates.{Crates, Rng}
use evnx_crypto.Crates.Random.{IsFilling}
use evnx_crypto.Srp.Ephemeral.{generate_client_ephemeral}
use evnx_crypto.Srp.Steps.{compute_client_proof, verify_server_proof, session_key}
use evnx_crypto.Srp.Types.{SrpClientEphemeral, SrpClientProof}

module _ (c : Crates) where
  -- With a generator that behaves as documented: an ephemeral that is given out has a private
  -- scalar of 64 bytes and the public value of this scalar, which is not all zero.
  generate_client_ephemeral_nonzero :
      (g : Rng c) {e : SrpClientEphemeral} {g' : Rng c}
      → IsFilling c.rand
      → generate_client_ephemeral c g ≡ (ok e, g')
      → (length e.private_a ≡ 64)
        × (e.public_a ≡ c.srp.compute_public_ephemeral e.private_a)
        × (all_zero e.public_a ≡ false)
  unfolding generate_client_ephemeral
  generate_client_ephemeral_nonzero g f h = ground (arith, f.length-fill_bytes 64 g)

  -- If the client's proof is computed and the server's proof is then verified, the server's public
  -- value was not all zero, the exchange of the `srp` crate accepted it, the client's proof and the
  -- session key are those of that exchange, and that exchange verifies the server's proof.
  login_established :
      (email : Text) (password salt b : Bytes) (e : SrpClientEphemeral) (m2 : Bytes)
      {p : SrpClientProof c}
      → compute_client_proof c email password salt b e ≡ ok p
      → verify_server_proof c m2 p ≡ ok tt
      → (all_zero b ≡ false)
        × (v : c.srp.Verifier) × (c.srp.process_reply e.private_a email password salt b ≡ inr v)
        × (p.client_proof ≡ c.srp.proof v)
        × (session_key c p ≡ c.srp.key v)
        × (c.srp.verify_server v m2 ≡ true)
  unfolding compute_client_proof verify_server_proof session_key
  login_established email password salt b e m2 {p} h k =
      (ground arith, p.verifier, ground arith, ground arith, refl, ground arith)
