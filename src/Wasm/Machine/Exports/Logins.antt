-- ===== src/Wasm/Machine/Exports/Logins.antt =====
-- The exports of src/wasm.rs for SRP.
use evnx_crypto.Base.Bytes.{Bytes, Text, all_zero}
use evnx_crypto.Base.Outcome.{
  ok, panic, Any, Safe, Safe-of, Safe-live, Safe-bind, Safe-map_err, Safe-or_err, map_err, or_err,
}
use evnx_crypto.Base.{◌≡◌, ◌≢◌, length, inr, false, arith}
use evnx_crypto.Crates.Random.{IsFilling}
use evnx_crypto.Crates.{Crates, Rng}
use evnx_crypto.Encoding.{b64_decode}
use evnx_crypto.Srp.Ephemeral
use evnx_crypto.Srp.Steps
use evnx_crypto.Srp.Types.{SrpClientEphemeral, SrpClientProof}
use evnx_crypto.Wasm.Calls.{
  salt_from_b64, compute_verifier, compute_client_proof, verify_server_proof,
}
use evnx_crypto.Wasm.Draws.{generate_client_ephemeral}
use evnx_crypto.Wasm.Handles.{js, SrpEphemeralHandle, SrpProofHandle}
use evnx_crypto.Wasm.Machine.Exports.Keys.{salt_from_b64_live}

module _ (c : Crates) where
  -- An ephemeral that can be sent: the public value is that of the scalar, and not zero.
  abbrev pub IsEphemeral : SrpClientEphemeral → Type 0
  IsEphemeral e =
      (length e.private_a ≡ 64)
      × (e.public_a ≡ c.srp.compute_public_ephemeral e.private_a)
      × (all_zero e.public_a ≡ false)

  -- A proof of an exchange with a server whose public value was not zero.
  pub record IsProof (p : SrpClientProof c) : Type 0 where
    pub private_a : Bytes
    pub email : Text
    pub password : Bytes
    pub salt : Bytes
    pub server_public_b : Bytes
    pub nonzero : all_zero server_public_b ≡ false
    pub accepted :
        c.srp.process_reply private_a email password salt server_public_b ≡ inr p.verifier
    pub proved : p.client_proof ≡ c.srp.proof p.verifier

  pub generate_client_ephemeral-Safe :
      (g : Rng c)
      → IsFilling c.rand
      → Safe (λ e. IsEphemeral e.inner) (generate_client_ephemeral c g).0
  unfolding generate_client_ephemeral Ephemeral.generate_client_ephemeral
  generate_client_ephemeral-Safe g f = ground (arith, f.length-fill_bytes 64 g)

  pub compute_verifier-Safe :
      (email password salt : Text) → Safe Any (compute_verifier c email password salt)
  unfolding compute_verifier b64_decode Steps.compute_verifier
  compute_verifier-Safe email password salt = ground (arith, salt_from_b64_live c salt)

  prove_live :
      (email : Text) (password salt b : Bytes) (e : SrpClientEphemeral)
      → Steps.compute_client_proof c email password salt b e ≢ panic
  unfolding Steps.compute_client_proof
  prove_live email password salt b e = ground arith

  prove_lem :
      (email : Text) (password salt b : Bytes) (e : SrpClientEphemeral) {p : SrpClientProof c}
      → Steps.compute_client_proof c email password salt b e ≡ ok p
      → IsProof p
  unfolding Steps.compute_client_proof
  prove_lem email password salt b e {p} h = record {
    private_a = e.private_a;
    email = email;
    password = password;
    salt = salt;
    server_public_b = b;
    nonzero = ground arith;
    accepted = ground arith;
    proved = ground arith;
  }

  prove-Safe :
      (email : Text) (password salt b : Bytes) (e : SrpClientEphemeral)
      → Safe IsProof (Steps.compute_client_proof c email password salt b e)
  prove-Safe email password salt b e =
      Safe-of IsProof (Steps.compute_client_proof c email password salt b e)
        (prove_live email password salt b e) (λ p h. prove_lem email password salt b e h)

  pub compute_client_proof-Safe :
      (email password salt b : Text) (e : SrpEphemeralHandle)
      → Safe (λ p. IsProof p.inner) (compute_client_proof c email password salt b e)
  unfolding compute_client_proof b64_decode
  compute_client_proof-Safe email password salt b e =
      Safe-bind Any (λ p. IsProof p.inner) (map_err js (b64_decode c password "srp_password")) _
        (Safe-map_err Any js (b64_decode c password "srp_password")
          (Safe-or_err (c.base64.decode password) _))
        (λ pw _.
          Safe-bind Any (λ p. IsProof p.inner) (salt_from_b64 c salt) _
            (Safe-live (salt_from_b64 c salt) (salt_from_b64_live c salt))
            (λ sa _.
              Safe-bind Any (λ p. IsProof p.inner) (or_err (c.hex.decode b) _) _
                (Safe-or_err (c.hex.decode b) _)
                (λ sb _.
                  Safe-bind IsProof (λ p. IsProof p.inner)
                    (map_err js (Steps.compute_client_proof c email pw sa sb e.inner)) _
                    (Safe-map_err IsProof js (Steps.compute_client_proof c email pw sa sb e.inner)
                      (prove-Safe email pw sa sb e.inner))
                    (λ p v. v))))

  pub verify_server_proof-Safe :
      (m2 : Text) (p : SrpProofHandle c) → Safe Any (verify_server_proof c m2 p)
  unfolding verify_server_proof Steps.verify_server_proof
  verify_server_proof-Safe m2 p = ground arith
