-- ===== src/Tests/Flows.antt =====
-- The theorems about the documented flows at concrete inputs.
use evnx_crypto.Base.Bytes.{Bytes, Text, ascii, to_byte}
use evnx_crypto.Base.Outcome.{ok}
use evnx_crypto.Base.{◌++◌, ◌≡◌, refl, ℕ, inr, true, some, length, arith, replicate}
use evnx_crypto.Flows.Completion.{login_flow_completes}
use evnx_crypto.Flows.Delivery.{
  encrypt_and_share_completes, push_and_pull_completes, share_completes,
}
use evnx_crypto.Flows.Login.{readme_login_flow}
use evnx_crypto.Flows.Registration.{Payload, readme_registration_flow, registration_payload}
use evnx_crypto.Flows.Sharing.{encrypt_and_share, readme_push_and_pull_flow, readme_share_flow}
use evnx_crypto.Kdf.{generate_salt, derive_srp_password}
use evnx_crypto.Tests.Data.{id, plaintext, password}
use evnx_crypto.Tests.Keys.{wraps}
use evnx_crypto.Tests.Toy.{crates, srp_server, fit}
use evnx_crypto.Tests.ToyLaws.{
  argon2-IsArgon2, ed25519-IsEd25519, aead-IsAead, base64-IsBase64, rand-IsFilling, hkdf-IsHkdf,
  x25519-IsX25519, mlkem-IsMlKem, srp-IsSrp, hex-IsHex,
}
use evnx_crypto.Wasm.Calls
use evnx_crypto.Wasm.Draws
use evnx_crypto.Wasm.Handles.{
  VerifierBundle, SrpEphemeralHandle, SrpProofHandle, public_a, client_proof, verifier,
}
use evnx_crypto.Wasm.Login.{browser_login_completes}

abbrev email : Text
email = ascii "user@example.test"

abbrev server_secret : Bytes
server_secret = replicate 32 (to_byte 3)

derived_by_code :
    derive_srp_password crates password (generate_salt crates (generate_salt crates 3).1).0
    ≡ ok (fit 32 (password ++ replicate 32 (to_byte 4)))
unfolding derive_srp_password generate_salt
derived_by_code = refl

salted_by_code :
    derive_srp_password crates password (generate_salt crates 4).0
    ≡ ok (fit 32 (password ++ replicate 32 (to_byte 4)))
unfolding derive_srp_password generate_salt
salted_by_code = refl

login_flow_completes_example :
    (readme_login_flow crates srp_server password email server_secret 3).0 ≡ ok tt
login_flow_completes_example =
    login_flow_completes crates srp_server password server_secret email 3 argon2-IsArgon2
      hkdf-IsHkdf aead-IsAead rand-IsFilling ed25519-IsEd25519 x25519-IsX25519 mlkem-IsMlKem
      base64-IsBase64 srp-IsSrp (omega arith) derived_by_code refl

encrypt_and_share_completes_example : (encrypt_and_share crates id plaintext 7 3).0 ≡ ok tt
encrypt_and_share_completes_example =
    encrypt_and_share_completes crates id plaintext 7 3 hkdf-IsHkdf aead-IsAead aead-IsAead
      rand-IsFilling ed25519-IsEd25519 x25519-IsX25519 mlkem-IsMlKem (omega arith) (omega arith)
      (λ kp g _. search wraps)

push_and_pull_completes_example : (readme_push_and_pull_flow crates id plaintext 6 3).0 ≡ ok tt
push_and_pull_completes_example =
    push_and_pull_completes crates id plaintext 6 3 hkdf-IsHkdf aead-IsAead aead-IsAead
      rand-IsFilling ed25519-IsEd25519 x25519-IsX25519 mlkem-IsMlKem (omega arith) (omega arith)
      (omega arith) (λ kp g _. search wraps)

share_completes_example : (readme_share_flow crates id plaintext 1 3).0 ≡ ok tt
share_completes_example =
    share_completes crates id plaintext 1 3 base64-IsBase64 hkdf-IsHkdf aead-IsAead aead-IsAead
      rand-IsFilling ed25519-IsEd25519 x25519-IsX25519 mlkem-IsMlKem (omega arith) (omega arith)
      (λ me other g1 g2 _ _. (search wraps, search wraps))

registration_payload_example :
    (sent : Payload) × (g' : ℕ) × (readme_registration_flow crates password email 3 ≡ (ok sent, g'))
    × (sent.email ≡ email)
    × (length sent.srp_salt_base64 ≡ 44)
    × (length sent.argon2_salt_base64 ≡ 44)
    × (length sent.ed25519_public_base64 ≡ 44)
    × (length sent.x25519_public_base64 ≡ 44)
    × (length sent.encrypted_private_key ≡ 96)
registration_payload_example =
    registration_payload crates password email 3 argon2-IsArgon2 hkdf-IsHkdf aead-IsAead
      rand-IsFilling ed25519-IsEd25519 x25519-IsX25519 mlkem-IsMlKem base64-IsBase64 (omega arith)

browser_login_completes_example :
    let salt_text = (Draws.generate_salt crates 4).0 in
    let server_b = fit 4 server_secret in
    (pw_text : Text) × (bundle : VerifierBundle) × (v : Bytes) × (e : SrpEphemeralHandle) × (g2 : ℕ)
    × (a : Bytes) × (p : SrpProofHandle crates) × (y : Bytes) × (m1 : Bytes)
    × (Calls.derive_srp_password crates password salt_text ≡ ok pw_text)
    × (Calls.compute_verifier crates email pw_text salt_text ≡ ok bundle)
    × (crates.hex.decode (verifier bundle) ≡ some v)
    × (Draws.generate_client_ephemeral crates 9 ≡ (ok e, g2))
    × (crates.hex.decode (public_a crates e) ≡ some a)
    × (Calls.compute_client_proof crates email pw_text salt_text (crates.hex.encode server_b) e
        ≡ ok p)
    × (srp_server.process_reply server_secret v a ≡ inr y)
    × (crates.hex.decode (client_proof crates p) ≡ some m1)
    × (srp_server.verify_client y m1 ≡ true)
    × (Calls.verify_server_proof crates (crates.hex.encode (srp_server.proof y)) p ≡ ok tt)
browser_login_completes_example =
    browser_login_completes crates srp_server email password server_secret 4 9 base64-IsBase64
      hex-IsHex rand-IsFilling srp-IsSrp salted_by_code refl
