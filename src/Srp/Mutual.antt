-- ===== src/Srp/Mutual.antt =====
-- A login of src/srp.rs against a server that holds the verifier.
use evnx_crypto.Base.{◌≡◌, ◌≢◌, ◌⊎◌, inl, inr, true, false, refl, Bool-cases, arith}
use evnx_crypto.Base.Bytes.{Bytes, Text, all_zero}
use evnx_crypto.Base.Outcome.{ok, err}
use evnx_crypto.Crates.{Crates, Rng}
use evnx_crypto.Crates.Srp.{SrpServer, IsSrp, IsMutual}
use evnx_crypto.Errors.{CryptoError}
use evnx_crypto.Srp.Ephemeral.{generate_client_ephemeral}
use evnx_crypto.Srp.Steps.{compute_verifier, compute_client_proof, verify_server_proof, session_key}
use evnx_crypto.Srp.Types.{SrpVerifier, SrpClientEphemeral, SrpClientProof}

module _ (c : Crates) (server : SrpServer) where
  -- The server's proof is accepted, or refused with the one error of this step.
  verified_cases :
      (m2 : Bytes) (p : SrpClientProof c)
      → ((c.srp.verify_server p.verifier m2 ≡ true) × (verify_server_proof c m2 p ≡ ok tt))
        ⊎ ((c.srp.verify_server p.verifier m2 ≡ false)
            × (verify_server_proof c m2 p
                ≡ err (
                    CryptoError.srp
                      "Server proof verification failed — possible MITM or server error")))
  unfolding verify_server_proof
  verified_cases m2 p = elim (Bool-cases (c.srp.verify_server p.verifier m2)) [
    | inl e ↦ inl (e, ground arith)
    | inr e ↦ inr (e, ground arith)
  ]

  -- With an `srp` crate whose two sides implement one protocol, hash one secret to the session key,
  -- and compare the server's proof with the client's own, and a server whose public value for this
  -- verifier is not all zero: the verifier, the ephemeral and the client's proof are computed, the
  -- server's exchange on them succeeds and accepts the proof, and both sides have the same session
  -- key; and whatever is sent as the server's proof is accepted if it is the server's, and
  -- otherwise refused with the error `Srp`.
  pub login_agrees :
      (email : Text) (pw salt b m2 : Bytes) (g : Rng c)
      → IsSrp c.srp server
      → IsMutual c.srp server
      → all_zero (server.compute_public_ephemeral b (c.srp.compute_verifier email pw salt)) ≡ false
      → (r : SrpVerifier) × (e : SrpClientEphemeral) × (g' : Rng c) × (p : SrpClientProof c)
        × (y : server.Verifier) × (compute_verifier c email pw salt ≡ ok r)
        × (generate_client_ephemeral c g ≡ (ok e, g'))
        × (compute_client_proof c email pw salt (server.compute_public_ephemeral b r.verifier) e
            ≡ ok p)
        × (server.process_reply b r.verifier e.public_a ≡ inr y)
        × (server.verify_client y p.client_proof ≡ true)
        × (session_key c p ≡ server.key y)
        × (((m2 ≡ server.proof y) × (verify_server_proof c m2 p ≡ ok tt))
            ⊎ ((m2 ≢ server.proof y)
                × (verify_server_proof c m2 p
                    ≡ err (
                        CryptoError.srp
                          "Server proof verification failed — possible MITM or server error"))))
  unfolding compute_verifier generate_client_ephemeral compute_client_proof session_key
  login_agrees email pw salt b m2 g s both nonzero =
      let (a, g') = c.rand.fill_bytes 64 g in
      let v = c.srp.compute_verifier email pw salt in
      let a_nonzero = s.compute_public_ephemeral_nonzero a in
      let (x, y, e1, e2, e3, e4) = s.exchange a b email pw salt nonzero in
      let e : SrpClientEphemeral = record {
        private_a = a;
        public_a = c.srp.compute_public_ephemeral a;
      } in
      let p : SrpClientProof c = record { client_proof = c.srp.proof x; verifier = x } in
      (
        record { verifier = v; srp_salt = salt },
        e,
        g',
        p,
        y,
        refl,
        ground (arith, a_nonzero),
        ground (arith, nonzero, e1),
        e2,
        e3,
        both.same_key a b email pw salt e1 e2,
        elim (verified_cases m2 p) [
          | inl (accepted, e) ↦ inl (both.verify_server-unique x m2 (server.proof y) accepted e4, e)
          | inr (refused, e) ↦ inr (λ same. ground arith, e)
        ],
      )
