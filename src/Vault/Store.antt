-- ===== src/Vault/Store.antt =====
-- A vault over time: the pushes and key rotations of a client, through src/vault.rs, and what the
-- server then holds. The server keeps a blob for each pushed version; the client keeps the key.
pub mod Represents
pub mod Pull
use evnx_crypto.Base.{ℕ, List, [], ◌∷◌, length, ◌+◌, ◌^◌, ◌≤◌, ◌<◌}
use evnx_crypto.Base.Bytes.{Bytes, Text}
use evnx_crypto.Base.Outcome.{ok}
use evnx_crypto.Crates.{Crates, Rng}
use evnx_crypto.Crates.Random.{Random, lift, draw, ◌>>=◌}
use evnx_crypto.Errors.{CryptoError}
use evnx_crypto.Vault.Identity.{vault_aad}
use evnx_crypto.Vault.Open.{EncryptedBlob}
use evnx_crypto.Vault.Seal.{encrypt_vault, reencrypt_vault}
use evnx_crypto.Vault.VaultKey
use evnx_crypto.Vault.VaultKey.{VaultKey}

-- What is pushed.
pub record Version : Type 0 where
  pub vault_id : Text
  pub number : ℕ
  pub plaintext : Bytes

-- What the server holds of it.
pub record Stored : Type 0 where
  pub vault_id : Text
  pub number : ℕ
  pub blob : EncryptedBlob

pub record Store : Type 0 where
  pub key : VaultKey
  pub stored : List Stored

pub data Edit : Type 0 where
  push : Version → Edit
  rotate : Edit

module _ (c : Crates) where
  -- Every blob of a vault is brought under the new key, at its own id and version.
  unfoldable pub reencrypt_all :
      VaultKey → VaultKey → List Stored → Random (Rng c) CryptoError (List Stored)
  reencrypt_all old new [] = lift (ok [])
  reencrypt_all old new (x ∷ rest) = do
    blob ← reencrypt_vault c x.blob old new (vault_aad x.vault_id x.number)
    others ← reencrypt_all old new rest
    lift (ok (record { vault_id = x.vault_id; number = x.number; blob = blob } ∷ others))

  unfoldable pub edit : Store → Edit → Random (Rng c) CryptoError Store
  edit s (push v) = do
    blob ← encrypt_vault c v.plaintext s.key (vault_aad v.vault_id v.number)
    let x : Stored = record { vault_id = v.vault_id; number = v.number; blob = blob }
    lift (ok (record { key = s.key; stored = x ∷ s.stored }))
  edit s rotate = do
    key ← draw (VaultKey.generate c)
    stored ← reencrypt_all s.key key s.stored
    lift (ok (record { key = key; stored = stored }))

  unfoldable pub edit_all : Store → List Edit → Random (Rng c) CryptoError Store
  edit_all s [] = lift (ok s)
  edit_all s (e ∷ rest) = do t ← edit s e; edit_all t rest

-- The abstract vault: the versions that were pushed, the last one first. A rotation is not seen.
abbrev pub record_edit : List Version → Edit → List Version
record_edit log (push v) = v ∷ log
record_edit log rotate = log

abbrev pub history : List Version → List Edit → List Version
history log [] = log
history log (e ∷ rest) = history (record_edit log e) rest

-- An edit within the bounds of the cipher and of the version field.
abbrev pub IsBounded : Edit → Type 0
IsBounded (push v) =
    (length v.plaintext + 16 ≤ 2 ^ 32) × (length v.vault_id < 2 ^ 31) × (v.number < 2 ^ 32)
IsBounded rotate = Unit {0}

abbrev pub AllBounded : List Edit → Type 0
AllBounded [] = Unit {0}
AllBounded (e ∷ rest) = IsBounded e × AllBounded rest
