-- ===== src/Tests/Store.antt =====
-- The theorems about a vault's history at a concrete one.
use evnx_crypto.Base.Bytes.{to_byte}
use evnx_crypto.Base.Outcome.{ok}
use evnx_crypto.Base.{ℕ, List, [], ◌∷◌, ◌++◌, ◌≡◌, ◌⊎◌, some, get_elem?, replicate, refl, arith}
use evnx_crypto.Tests.Data.{vk, id, plaintext}
use evnx_crypto.Tests.Toy.{crates, tag}
use evnx_crypto.Tests.ToyLaws.{aead-IsAead, rand-IsFilling}
use evnx_crypto.Vault.Blob.{AadForgery}
use evnx_crypto.Vault.Identity.{vault_aad}
use evnx_crypto.Vault.Open.{decrypt_vault}
use evnx_crypto.Vault.Seal.{encrypt_vault, reencrypt_vault}
use evnx_crypto.Vault.Store.Pull.{pull_refines_history}
use evnx_crypto.Vault.Store.{
  Version, Stored, Store, Edit, reencrypt_all, edit, edit_all, history, AllBounded, push, rotate,
}
use evnx_crypto.Vault.VaultKey
use evnx_crypto.Vault.VaultKey.{VaultKey}
use evnx_crypto.Zeroize.SecretBytes

abbrev pub version : ℕ → Version
version n = record { vault_id = id; number = n; plaintext = plaintext }

-- A push, a rotation of the key, and a push.
abbrev edits : List Edit
edits = push (version 6) ∷ rotate ∷ push (version 7) ∷ []

edits-AllBounded : AllBounded edits
edits-AllBounded =
    ((omega arith, omega arith, omega arith), (tt, ((omega arith, omega arith, omega arith), tt)))

abbrev key : VaultKey
key = record { bytes = replicate 32 (to_byte 4) }

-- What the server holds of a version whose nonce was drawn as copies of a byte.
abbrev held : ℕ → ℕ → Stored
held n byte = record {
  vault_id = id;
  number = n;
  blob = record {
    nonce = replicate 12 (to_byte byte);
    ciphertext = plaintext ++ tag key.bytes (vault_aad id n);
  };
}

abbrev store : Store
store = record { key = key; stored = held 7 6 ∷ held 6 5 ∷ [] }

edited_by_code : edit_all crates (record { key = vk; stored = [] }) edits 3 ≡ (ok store, 7)
unfolding edit_all edit reencrypt_all encrypt_vault reencrypt_vault decrypt_vault VaultKey.generate
    VaultKey.expose SecretBytes.new SecretBytes.as_ref vault_aad
edited_by_code = refl

opened_by_code : decrypt_vault crates (held 6 5).blob key (vault_aad id 6) ≡ ok plaintext
unfolding decrypt_vault VaultKey.expose vault_aad
opened_by_code = refl

pull_refines_history_example :
    (get_elem? (history [] edits) 1 ≡ some (version 6)) ⊎ AadForgery crates key (held 6 5).blob
pull_refines_history_example =
    pull_refines_history crates aead-IsAead rand-IsFilling vk edits 3 1 id 6 plaintext refl
      edits-AllBounded (omega arith) edited_by_code refl opened_by_code
