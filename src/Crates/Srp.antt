-- ===== src/Crates/Srp.antt =====
-- The client and the server of the `srp` crate, over `G_2048` and SHA-256.
use evnx_crypto.Base.Bytes.{Bytes, all_zero}
use evnx_crypto.Base.{◌⊎◌, inr, ◌≡◌, String, Bool, true, false}

pub record SrpClient : Type 1 where
  -- `SrpClientVerifier`
  pub Verifier : Type 0
  -- The user name, the password and the salt.
  pub compute_verifier : Bytes → Bytes → Bytes → Bytes
  pub compute_public_ephemeral : Bytes → Bytes
  -- The private ephemeral, the user name, the password, the salt and the server's public value;
  -- a failure is the `{:?}` of the crate's error.
  pub process_reply : Bytes → Bytes → Bytes → Bytes → Bytes → String ⊎ Verifier
  pub proof : Verifier → Bytes
  pub key : Verifier → Bytes
  -- Whether `verify_server` accepts the server's proof.
  pub verify_server : Verifier → Bytes → Bool
  -- What the memory of a dropped verifier holds. The crate promises no wiping.
  pub dropped : Verifier → Bytes

-- `SrpServer` and `SrpServerVerifier`, which the tests of the repository run.
pub record SrpServer : Type 1 where
  pub Verifier : Type 0
  -- The private ephemeral and the verifier of the registration.
  pub compute_public_ephemeral : Bytes → Bytes → Bytes
  -- The private ephemeral, the verifier of the registration and the client's public value.
  pub process_reply : Bytes → Bytes → Bytes → String ⊎ Verifier
  -- Whether `verify_client` accepts the client's proof.
  pub verify_client : Verifier → Bytes → Bool
  pub proof : Verifier → Bytes
  pub key : Verifier → Bytes

-- SRP-6a, which both sides implement.
pub record IsSrp (client : SrpClient) (server : SrpServer) : Type 0 where
  -- The modulus is prime and does not divide the generator, so no power of it is zero.
  pub compute_public_ephemeral_nonzero :
      (a : Bytes) → all_zero (client.compute_public_ephemeral a) ≡ false
  -- Where both sides know the password, and the server's value is not zero, they agree.
  pub exchange :
      (a b user password salt : Bytes)
      → let v = client.compute_verifier user password salt in
        all_zero (server.compute_public_ephemeral b v) ≡ false
        → (x : client.Verifier) × (y : server.Verifier) × (client.process_reply a user password salt
              (server.compute_public_ephemeral b v)
            ≡ inr x)
          × (server.process_reply b v (client.compute_public_ephemeral a) ≡ inr y)
          × (server.verify_client y (client.proof x) ≡ true)
          × (client.verify_server x (server.proof y) ≡ true)

-- Both sides hash one secret to the session key, and the client compares the server's proof with
-- the one it computes itself.
pub record IsMutual (client : SrpClient) (server : SrpServer) : Type 0 where
  pub same_key :
      (a b user password salt : Bytes) {x : client.Verifier} {y : server.Verifier}
      → let v = client.compute_verifier user password salt in
        client.process_reply a user password salt (server.compute_public_ephemeral b v) ≡ inr x
        → server.process_reply b v (client.compute_public_ephemeral a) ≡ inr y
        → client.key x ≡ server.key y
  pub verify_server-unique :
      (x : client.Verifier) (m m' : Bytes)
      → client.verify_server x m ≡ true
      → client.verify_server x m' ≡ true
      → m ≡ m'
