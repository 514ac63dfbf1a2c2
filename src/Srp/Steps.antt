-- ===== src/Srp/Steps.antt =====
-- The operations of src/srp.rs that draw no randomness.
use evnx_crypto.Base.{◌<>◌, if◌then◌else◌}
use evnx_crypto.Base.Bytes.{Bytes, Text, all_zero}
use evnx_crypto.Base.Outcome.{ok, err, ◌>>=◌, ◌>>◌, fail_if, or_failure}
use evnx_crypto.Crates.{Crates}
use evnx_crypto.Encoding.{b64_encode}
use evnx_crypto.Errors.{CryptoError, Result}
use evnx_crypto.Srp.Types.{SrpVerifier, SrpClientEphemeral, SrpClientProof}

module _ (c : Crates) where
  unfoldable pub session_key : SrpClientProof c → Bytes
  session_key p = c.srp.key p.verifier

  unfoldable pub compute_verifier : Text → Bytes → Bytes → Result SrpVerifier
  compute_verifier email srp_password_bytes srp_salt = do
    let verifier = c.srp.compute_verifier email srp_password_bytes srp_salt
    ok (record { verifier = verifier; srp_salt = srp_salt })

  unfoldable pub compute_client_proof :
      Text → Bytes → Bytes → Bytes → SrpClientEphemeral → Result (SrpClientProof c)
  compute_client_proof email srp_password_bytes srp_salt server_public_b ephemeral = do
    fail_if (all_zero server_public_b)
        (CryptoError.srp "Server sent B = 0 — possible attack or server bug")
    verifier ←
        or_failure (λ e. CryptoError.srp ("SRP process_reply failed: " <> e))
          (c.srp.process_reply ephemeral.private_a email srp_password_bytes srp_salt
            server_public_b)
    ok (record { client_proof = c.srp.proof verifier; verifier = verifier })

  unfoldable pub verify_server_proof : Bytes → SrpClientProof c → Result (Unit {0})
  verify_server_proof server_proof srp_proof =
      if c.srp.verify_server srp_proof.verifier server_proof
      then ok tt
      else err (CryptoError.srp "Server proof verification failed — possible MITM or server error")

  -- `SrpVerifier::verifier_hex` and `SrpVerifier::srp_salt_base64`
  unfoldable pub verifier_hex : SrpVerifier → Text
  verifier_hex v = c.hex.encode v.verifier

  unfoldable pub srp_salt_base64 : SrpVerifier → Text
  srp_salt_base64 v = b64_encode c v.srp_salt
