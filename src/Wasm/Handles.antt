-- ===== src/Wasm/Handles.antt =====
-- The handles and bundles of src/wasm.rs, and their methods that hand out texts.
use evnx_crypto.Base.Bytes.{Text}
use evnx_crypto.Base.Outcome.{Outcome}
use evnx_crypto.Base.{String}
use evnx_crypto.Crates.{Crates}
use evnx_crypto.Errors.{CryptoError, to_string}
use evnx_crypto.Kdf.MasterKey.{MasterKey}
use evnx_crypto.Keypair.Types.{UserKeypair}
use evnx_crypto.Keypair.UserKeypair as Own
use evnx_crypto.Srp.Types.{SrpClientEphemeral, SrpClientProof}
use evnx_crypto.Vault.VaultKey.{VaultKey}

-- An error of `wasm_bindgen`, by its message.
pub record JsError : Type 0 where
  pub message : String

abbrev pub JsResult {ℓ} : Type ℓ → Type ℓ
JsResult A = Outcome JsError A

unfoldable pub js : CryptoError → JsError
js e = record { message = to_string e }

pub record MasterKeyHandle : Type 0 where
  pub inner : MasterKey

pub record VaultKeyHandle : Type 0 where
  pub inner : VaultKey

pub record KeypairHandle (c : Crates) : Type 0 where
  pub inner : UserKeypair c

pub record WrappedKeyBundle : Type 0 where
  pub encrypted_vault_key_b64 : Text
  pub eph_pub_key_b64 : Text
  pub mlkem_ciphertext_b64 : Text

pub record SrpEphemeralHandle : Type 0 where
  pub inner : SrpClientEphemeral

pub record SrpProofHandle (c : Crates) : Type 0 where
  pub inner : SrpClientProof c

pub record VerifierBundle : Type 0 where
  pub verifier_hex : Text
  pub srp_salt_b64 : Text

-- The getters of the two bundles.
unfoldable pub encrypted_vault_key : WrappedKeyBundle → Text
encrypted_vault_key b = b.encrypted_vault_key_b64

unfoldable pub eph_pub_key : WrappedKeyBundle → Text
eph_pub_key b = b.eph_pub_key_b64

unfoldable pub mlkem_ciphertext : WrappedKeyBundle → Text
mlkem_ciphertext b = b.mlkem_ciphertext_b64

unfoldable pub verifier : VerifierBundle → Text
verifier b = b.verifier_hex

unfoldable pub srp_salt : VerifierBundle → Text
srp_salt b = b.srp_salt_b64

module _ (c : Crates) where
  unfoldable pub ed25519_public_key : KeypairHandle c → Text
  ed25519_public_key h = Own.ed25519_public_base64 c h.inner

  unfoldable pub x25519_public_key : KeypairHandle c → Text
  x25519_public_key h = Own.x25519_public_base64 c h.inner

  unfoldable pub mlkem_public_key : KeypairHandle c → Text
  mlkem_public_key h = Own.mlkem_public_base64 c h.inner

  unfoldable pub public_a : SrpEphemeralHandle → Text
  public_a h = c.hex.encode h.inner.public_a

  unfoldable pub client_proof : SrpProofHandle c → Text
  client_proof h = c.hex.encode h.inner.client_proof
