-- ===== src/Flows/Login.antt =====
-- `readme_login_flow` of tests/readme_flows.rs.
use evnx_crypto.Base.Bytes.{Bytes, Text, bytes_eq}
use evnx_crypto.Base.Outcome.{assert, expect, or_failure}
use evnx_crypto.Crates.{Crates, Rng}
use evnx_crypto.Crates.Random.{Random, lift, draw, ◌>>=◌, ◌>>◌}
use evnx_crypto.Crates.Random as Random
use evnx_crypto.Crates.Srp.{SrpServer}
use evnx_crypto.Errors.{CryptoError}
use evnx_crypto.Kdf.{generate_salt, derive_master_key, derive_srp_password}
use evnx_crypto.Keypair.EncryptedPrivateKey as Sealed
use evnx_crypto.Keypair.Generate.{generate_keypair, encrypt_private_key}
use evnx_crypto.Keypair.PrivateKey.{decrypt_private_key}
use evnx_crypto.Srp.Ephemeral.{generate_client_ephemeral}
use evnx_crypto.Srp.Steps.{compute_verifier, compute_client_proof, verify_server_proof}

-- `generate_keypair` has no error value.
abbrev pub never : ⊥ → CryptoError
never e = absurd e

-- The server's calls come from the `srp` crate, with its private ephemeral `b`.
unfoldable pub readme_login_flow :
    (c : Crates) → SrpServer → Bytes → Text → Bytes → Random (Rng c) CryptoError (Unit {0})
readme_login_flow c server password email b = do
  argon2_salt ← draw (generate_salt c)
  srp_salt ← draw (generate_salt c)
  master_key ← lift (derive_master_key c password argon2_salt)
  keypair ← Random.map_err never (generate_keypair c)
  enc_private_key ← encrypt_private_key c keypair master_key
  srp_password ← lift (derive_srp_password c password srp_salt)
  verifier ← lift (compute_verifier c email srp_password srp_salt)
  enc_private_key ← lift (expect (Sealed.from_base64 c (Sealed.to_base64 c enc_private_key)))
  master_key ← lift (derive_master_key c password argon2_salt)
  keypair_again ← lift (decrypt_private_key c enc_private_key master_key)
  lift (assert (bytes_eq keypair_again.x25519_public.bytes keypair.x25519_public.bytes))
  eph ← generate_client_ephemeral c
  let server_b = server.compute_public_ephemeral b verifier.verifier
  srp_password ← lift (derive_srp_password c password srp_salt)
  proof ← lift (compute_client_proof c email srp_password srp_salt server_b eph)
  server_verifier ←
      lift (expect (or_failure (λ e. e) (server.process_reply b verifier.verifier eph.public_a)))
  lift (assert (server.verify_client server_verifier proof.client_proof))
  lift (verify_server_proof c (server.proof server_verifier) proof)
