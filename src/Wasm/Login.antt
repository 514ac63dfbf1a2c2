-- ===== src/Wasm/Login.antt =====
-- The bindings of src/wasm.rs for SRP, against a server that registered the verifier.
use evnx_crypto.Base.Bytes.{Bytes, Text, all_zero}
use evnx_crypto.Base.Outcome.{ok}
use evnx_crypto.Base.{◌≡◌, inr, true, false, some, arith}
use evnx_crypto.Crates.Coding.{IsBase64, IsHex}
use evnx_crypto.Crates.Random.{IsFilling}
use evnx_crypto.Crates.Srp.{SrpServer, IsSrp}
use evnx_crypto.Crates.{Crates, Rng}
use evnx_crypto.Encoding.Wire.{b64_decode-b64_encode, b64_decode_array-b64_encode}
use evnx_crypto.Encoding.{b64_encode}
use evnx_crypto.Kdf
use evnx_crypto.Srp.Ephemeral
use evnx_crypto.Srp.Steps
use evnx_crypto.Wasm.Calls.{
  salt_from_b64, derive_srp_password, compute_verifier, compute_client_proof, verify_server_proof,
}
use evnx_crypto.Wasm.Draws.{generate_salt, generate_client_ephemeral}
use evnx_crypto.Wasm.Handles.{
  VerifierBundle, SrpEphemeralHandle, SrpProofHandle, public_a, client_proof, verifier,
}

module _ (c : Crates) (server : SrpServer) where
  salt_from_b64-generate_salt :
      (g : Rng c)
      → IsBase64 c.base64
      → IsFilling c.rand
      → salt_from_b64 c (generate_salt c g).0 ≡ ok (Kdf.generate_salt c g).0
  unfolding salt_from_b64 generate_salt Kdf.generate_salt Kdf.salt_to_base64 Kdf.salt_from_base64
  salt_from_b64-generate_salt g b f =
      let salt = (c.rand.fill_bytes 32 g).0 in
      ground (arith, b64_decode_array-b64_encode c 32 salt "salt" b (f.length-fill_bytes 32 g))

  -- With crates that behave as documented, a server that implements the other side of the protocol
  -- and whose public value for this verifier is not all zero, and a password from which the SRP
  -- input for the salt is derived: the browser's derivation, verifier, ephemeral, proof and
  -- verification of the server all succeed on the texts that are exchanged, in which the server
  -- reads the verifier, the client's public value and its proof from hex, its exchange on these
  -- succeeds, and it accepts the proof.
  pub browser_login_completes :
      (email password : Text) (b : Bytes) (g g1 : Rng c) {pw : Bytes}
      → IsBase64 c.base64
      → IsHex c.hex
      → IsFilling c.rand
      → IsSrp c.srp server
      → let salt = (Kdf.generate_salt c g).0 in
        Kdf.derive_srp_password c password salt ≡ ok pw
        → all_zero (server.compute_public_ephemeral b (c.srp.compute_verifier email pw salt))
          ≡ false
        → let salt_text = (generate_salt c g).0 in
          (pw_text : Text) × (bundle : VerifierBundle) × (v : Bytes) × (e : SrpEphemeralHandle)
          × (g2 : Rng c) × (a : Bytes) × (p : SrpProofHandle c) × (y : server.Verifier)
          × (m1 : Bytes) × (derive_srp_password c password salt_text ≡ ok pw_text)
          × (compute_verifier c email pw_text salt_text ≡ ok bundle)
          × (c.hex.decode (verifier bundle) ≡ some v)
          × (generate_client_ephemeral c g1 ≡ (ok e, g2))
          × (c.hex.decode (public_a c e) ≡ some a)
          × (compute_client_proof c email pw_text salt_text
                (c.hex.encode (server.compute_public_ephemeral b v))
                e
              ≡ ok p)
          × (server.process_reply b v a ≡ inr y)
          × (c.hex.decode (client_proof c p) ≡ some m1)
          × (server.verify_client y m1 ≡ true)
          × (verify_server_proof c (c.hex.encode (server.proof y)) p ≡ ok tt)
  unfolding derive_srp_password compute_verifier compute_client_proof verify_server_proof
      generate_client_ephemeral public_a client_proof verifier Ephemeral.generate_client_ephemeral
      Steps.compute_verifier Steps.compute_client_proof Steps.verify_server_proof Steps.verifier_hex
  browser_login_completes email password b g g1 {pw} b64 h f s derived nonzero =
      let salt = (Kdf.generate_salt c g).0 in
      let sent = salt_from_b64-generate_salt g b64 f in
      let received = b64_decode-b64_encode c pw "srp_password" b64 in
      let v = c.srp.compute_verifier email pw salt in
      let (private_a, g2) = c.rand.fill_bytes 64 g1 in
      let server_b = server.compute_public_ephemeral b v in
      let a_nonzero = s.compute_public_ephemeral_nonzero private_a in
      let (x, y, e1, e2, e3, e4) = s.exchange private_a b email pw salt nonzero in
      (
        b64_encode c pw,
        record {
          verifier_hex = c.hex.encode v;
          srp_salt_b64 = Steps.srp_salt_base64 c (record { verifier = v; srp_salt = salt });
        },
        v,
        record {
          inner = record {
            private_a = private_a;
            public_a = c.srp.compute_public_ephemeral private_a;
          };
        },
        g2,
        c.srp.compute_public_ephemeral private_a,
        record { inner = record { client_proof = c.srp.proof x; verifier = x } },
        y,
        c.srp.proof x,
        ground (arith, sent, derived),
        ground (arith, sent, received),
        h.decode-encode v,
        ground (arith, a_nonzero),
        h.decode-encode _,
        ground (arith, sent, received, h.decode-encode server_b, nonzero, e1),
        e2,
        h.decode-encode _,
        e3,
        ground (arith, h.decode-encode (server.proof y), e4),
      )
