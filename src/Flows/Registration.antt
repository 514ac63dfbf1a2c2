-- ===== src/Flows/Registration.antt =====
-- `readme_registration_flow` of tests/readme_flows.rs, and what it sends.
use evnx_crypto.Base.{◌^◌, ◌<◌, ◌≡◌, refl, length, arith}
use evnx_crypto.Base.Bytes.{Bytes, Text}
use evnx_crypto.Base.Outcome.{ok}
use evnx_crypto.Crates.{Crates, Rng}
use evnx_crypto.Crates.Coding.{IsBase64}
use evnx_crypto.Crates.Curve.{IsEd25519, IsX25519}
use evnx_crypto.Crates.Kdf.{IsArgon2, IsHkdf}
use evnx_crypto.Crates.Kem.{IsMlKem}
use evnx_crypto.Crates.Random.{IsFilling, Random, lift, draw, ◌>>=◌}
use evnx_crypto.Crates.Random as Random
use evnx_crypto.Crates.Sealing.{IsAead}
use evnx_crypto.Encoding.{b64_encode}
use evnx_crypto.Errors.{CryptoError}
use evnx_crypto.Flows.Login.{never}
use evnx_crypto.Kdf.{generate_salt, derive_master_key, derive_srp_password, salt_to_base64}
use evnx_crypto.Kdf.Derivation.{derive_master_key_total, derive_srp_password_total}
use evnx_crypto.Keypair.Ed25519PublicKey as Ed25519
use evnx_crypto.Keypair.EncryptedPrivateKey as Sealed
use evnx_crypto.Keypair.Generate.{generate_keypair, encrypt_private_key}
use evnx_crypto.Keypair.Laws.Identity.{generate_keypair_total}
use evnx_crypto.Keypair.Laws.Seal.{encrypt_then_decrypt_private_key}
use evnx_crypto.Keypair.Laws.Wire.{encrypted_private_key_round_trip, length-b64_encode}
use evnx_crypto.Keypair.UserKeypair as Own
use evnx_crypto.Keypair.X25519PublicKeyBytes as X25519
use evnx_crypto.Srp.Steps.{compute_verifier, verifier_hex, srp_salt_base64}

-- What goes to the server. The test computes it and drops it.
pub record Payload : Type 0 where
  pub email : Text
  pub verifier_hex : Text
  pub srp_salt_base64 : Text
  pub argon2_salt_base64 : Text
  pub ed25519_public_base64 : Text
  pub x25519_public_base64 : Text
  pub encrypted_private_key : Text

unfoldable pub readme_registration_flow :
    (c : Crates) → Bytes → Text → Random (Rng c) CryptoError Payload
readme_registration_flow c password email = do
  argon2_salt ← draw (generate_salt c)
  srp_salt ← draw (generate_salt c)
  master_key ← lift (derive_master_key c password argon2_salt)
  keypair ← Random.map_err never (generate_keypair c)
  enc_private_key ← encrypt_private_key c keypair master_key
  srp_password ← lift (derive_srp_password c password srp_salt)
  verifier ← lift (compute_verifier c email srp_password srp_salt)
  lift (
      ok (record {
        email = email;
        verifier_hex = verifier_hex c verifier;
        srp_salt_base64 = srp_salt_base64 c verifier;
        argon2_salt_base64 = salt_to_base64 c argon2_salt;
        ed25519_public_base64 = Own.ed25519_public_base64 c keypair;
        x25519_public_base64 = Own.x25519_public_base64 c keypair;
        encrypted_private_key = Sealed.to_base64 c enc_private_key;
      }))

module _ (c : Crates) where
  -- With crates that behave as documented and a password below 2 ^ 32 bytes: the documented
  -- registration flow succeeds, and what it sends are the email as it is given, texts of 44
  -- characters for both salts and for the Ed25519 and the X25519 public key, and a text of 96 for
  -- the sealed private key.
  pub registration_payload :
      (password : Bytes) (email : Text) (g : Rng c)
      → IsArgon2 c.argon2
      → IsHkdf c.hkdf
      → IsAead c.xchacha
      → IsFilling c.rand
      → IsEd25519 c.ed25519
      → IsX25519 c.x25519
      → IsMlKem c.mlkem
      → IsBase64 c.base64
      → length password < 2 ^ 32
      → (sent : Payload) × (g' : Rng c) × (readme_registration_flow c password email g
          ≡ (ok sent, g'))
        × (sent.email ≡ email)
        × (length sent.srp_salt_base64 ≡ 44)
        × (length sent.argon2_salt_base64 ≡ 44)
        × (length sent.ed25519_public_base64 ≡ 44)
        × (length sent.x25519_public_base64 ≡ 44)
        × (length sent.encrypted_private_key ≡ 96)
  unfolding readme_registration_flow generate_salt compute_verifier srp_salt_base64 salt_to_base64
      Own.ed25519_public_base64 Own.x25519_public_base64 Ed25519.to_base64 X25519.to_base64
  registration_payload password email g a h ad f ed x ml b64 n =
      let (salt, g1) = c.rand.fill_bytes 32 g in
      let (srp_salt, g2) = c.rand.fill_bytes 32 g1 in
      let hs : length salt ≡ 32 = f.length-fill_bytes 32 g in
      let hr : length srp_salt ≡ 32 = f.length-fill_bytes 32 g1 in
      let (mk, dm, _) = derive_master_key_total c password salt a n hs in
      let (kp, g3, gk, v) = generate_keypair_total c g2 h ml ed x in
      let (enc, g4, se, n1, n2, _) = encrypt_then_decrypt_private_key c kp mk g3 ad h f x v in
      let (_, le) = encrypted_private_key_round_trip c enc b64 n1 (omega (arith, n2)) in
      let (pw, dp, _) = derive_srp_password_total c password srp_salt a n hr in
      let ne : length kp.ed25519_public.bytes ≡ 32 =
        rw v.ed25519_public_eq (ed.length-verifying_key _) in
      let nx : length kp.x25519_public.bytes ≡ 32 =
        rw v.x25519_public_eq (x.length-public_to_bytes _) in
      (
        record {
          email = email;
          verifier_hex =
              verifier_hex c (record {
                verifier = c.srp.compute_verifier email pw srp_salt;
                srp_salt = srp_salt;
              });
          srp_salt_base64 = b64_encode c srp_salt;
          argon2_salt_base64 = b64_encode c salt;
          ed25519_public_base64 = b64_encode c kp.ed25519_public.bytes;
          x25519_public_base64 = b64_encode c kp.x25519_public.bytes;
          encrypted_private_key = Sealed.to_base64 c enc;
        },
        g4,
        ground (arith, dm, gk, se, dp),
        refl,
        omega (arith, hr, length-b64_encode c srp_salt b64),
        omega (arith, hs, length-b64_encode c salt b64),
        omega (arith, ne, length-b64_encode c kp.ed25519_public.bytes b64),
        omega (arith, nx, length-b64_encode c kp.x25519_public.bytes b64),
        omega (arith, le, n2),
      )
