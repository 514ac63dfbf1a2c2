-- ===== src/Tests/Login.antt =====
-- A login against the concrete server, and a proof that is not its own.
use evnx_crypto.Base.Bytes.{Bytes, Text, ascii, to_byte, bytes_eq→eq}
use evnx_crypto.Base.Outcome.{ok, err}
use evnx_crypto.Base.{ℕ, [], ◌≡◌, ◌≢◌, ◌⊎◌, inr, true, sym, ◌∙◌, refl, replicate}
use evnx_crypto.Crates.Srp.{IsMutual}
use evnx_crypto.Errors.{CryptoError}
use evnx_crypto.Srp.Ephemeral.{generate_client_ephemeral}
use evnx_crypto.Srp.Mutual.{login_agrees}
use evnx_crypto.Srp.Steps.{compute_verifier, compute_client_proof, verify_server_proof, session_key}
use evnx_crypto.Srp.Types.{SrpVerifier, SrpClientEphemeral, SrpClientProof}
use evnx_crypto.Tests.Data.{salt, password}
use evnx_crypto.Tests.Toy.{crates, srp_server}
use evnx_crypto.Tests.ToyLaws.{srp-IsSrp}

srp-IsMutual : IsMutual crates.srp srp_server
srp-IsMutual = record {
  same_key = λ a b user password salt e e'. cc (e, e');
  verify_server-unique = λ x m m' e e'. sym (bytes_eq→eq x m e) ∙ bytes_eq→eq x m' e';
}

abbrev email : Text
email = ascii "user@example.test"

abbrev secret : Bytes
secret = replicate 32 (to_byte 3)

-- The empty proof is not the server's.
login_agrees_example :
    (r : SrpVerifier) × (e : SrpClientEphemeral) × (g' : ℕ) × (p : SrpClientProof crates)
    × (y : Bytes) × (compute_verifier crates email password salt ≡ ok r)
    × (generate_client_ephemeral crates 3 ≡ (ok e, g'))
    × (compute_client_proof crates email password salt
          (srp_server.compute_public_ephemeral secret r.verifier)
          e
        ≡ ok p)
    × (srp_server.process_reply secret r.verifier e.public_a ≡ inr y)
    × (srp_server.verify_client y p.client_proof ≡ true)
    × (session_key crates p ≡ srp_server.key y)
    × ((([] ≡ srp_server.proof y) × (verify_server_proof crates [] p ≡ ok tt))
        ⊎ (([] ≢ srp_server.proof y)
            × (verify_server_proof crates [] p
                ≡ err (
                    CryptoError.srp
                      "Server proof verification failed — possible MITM or server error"))))
login_agrees_example =
    login_agrees crates srp_server email password salt secret [] 3 srp-IsSrp srp-IsMutual refl
