-- ===== src/Flows/Completion.antt =====
-- Proofs that the flow of a login ends as it is meant to.
use evnx_crypto.Base.{◌^◌, ◌<◌, ◌≡◌, false, length, arith}
use evnx_crypto.Base.Bytes.{Bytes, Text, bytes_eq_refl, all_zero}
use evnx_crypto.Base.Outcome.{ok}
use evnx_crypto.Crates.{Crates, Rng}
use evnx_crypto.Crates.Coding.{IsBase64}
use evnx_crypto.Crates.Curve.{IsEd25519, IsX25519}
use evnx_crypto.Crates.Kdf.{IsArgon2, IsHkdf}
use evnx_crypto.Crates.Kem.{IsMlKem}
use evnx_crypto.Crates.Random.{IsFilling}
use evnx_crypto.Crates.Sealing.{IsAead}
use evnx_crypto.Crates.Srp.{SrpServer, IsSrp}
use evnx_crypto.Flows.Login.{readme_login_flow}
use evnx_crypto.Kdf.{generate_salt, derive_srp_password}
use evnx_crypto.Kdf.Derivation.{derive_master_key_total}
use evnx_crypto.Keypair.Laws.Identity.{generate_keypair_total}
use evnx_crypto.Keypair.Laws.Seal.{encrypt_then_decrypt_private_key}
use evnx_crypto.Keypair.Laws.Wire.{encrypted_private_key_round_trip}
use evnx_crypto.Srp.Ephemeral.{generate_client_ephemeral}
use evnx_crypto.Srp.Steps.{compute_verifier, compute_client_proof, verify_server_proof}

module _ (c : Crates) (server : SrpServer) where
  salt-length : (g : Rng c) → IsFilling c.rand → length (generate_salt c g).0 ≡ 32
  unfolding generate_salt
  salt-length g f = f.length-fill_bytes 32 g

  -- With crates that behave as documented, a password below 2 ^ 32 bytes from which the SRP input
  -- for the second salt is derived, and a server that implements the other side of the protocol and
  -- whose public value for this verifier is not all zero: the documented login flow ends with
  -- success, for every password, email and server ephemeral. So the sealed keypair is read back and
  -- opens to one with the same public key, and both sides of the exchange accept each other's
  -- proof.
  pub login_flow_completes :
      (password b : Bytes) (email : Text) (g : Rng c) {pw : Bytes}
      → IsArgon2 c.argon2
      → IsHkdf c.hkdf
      → IsAead c.xchacha
      → IsFilling c.rand
      → IsEd25519 c.ed25519
      → IsX25519 c.x25519
      → IsMlKem c.mlkem
      → IsBase64 c.base64
      → IsSrp c.srp server
      → length password < 2 ^ 32
      → let srp_salt = (generate_salt c (generate_salt c g).1).0 in
        derive_srp_password c password srp_salt ≡ ok pw
        → all_zero (server.compute_public_ephemeral b (c.srp.compute_verifier email pw srp_salt))
          ≡ false
        → (readme_login_flow c server password email b g).0 ≡ ok tt
  unfolding readme_login_flow generate_client_ephemeral compute_verifier compute_client_proof
      verify_server_proof
  login_flow_completes password b email g {pw} a h ad f ed x ml b64 s n derived nonzero =
      let (salt, g1) = generate_salt c g in
      let (srp_salt, g2) = generate_salt c g1 in
      let (mk, dm, hm) = derive_master_key_total c password salt a n (salt-length g f) in
      let (kp, g3, gk, v) = generate_keypair_total c g2 h ml ed x in
      let (enc, g4, se, n1, n2, op) = encrypt_then_decrypt_private_key c kp mk g3 ad h f x v in
      let (rt, _) = encrypted_private_key_round_trip c enc b64 n1 (omega (arith, n2)) in
      let (pa, g5) = c.rand.fill_bytes 64 g4 in
      let (cv, sv, e1, e2, e3, e4) = s.exchange pa b email pw srp_salt nonzero in
      let a_nonzero = s.compute_public_ephemeral_nonzero pa in
      ground (
        arith,
        dm,
        gk,
        se,
        derived,
        rt,
        op,
        bytes_eq_refl kp.x25519_public.bytes,
        a_nonzero,
        nonzero,
        e1,
        e2,
        e3,
        e4,
      )
