-- ===== src/Team.antt =====
-- A vault that a team shares over time, through src/vault.rs and src/keypair.rs: pushes, invitations,
-- and the rotation of the key that follows the expulsion of a member. `Team` is a specification and
-- has no counterpart in the source but the calls that it makes.
pub mod Granting
pub mod Access
pub mod Expelled
use evnx_crypto.Base.{ℕ, zero, suc, List, [], ◌∷◌, ◌++◌}
use evnx_crypto.Base.Outcome.{ok}
use evnx_crypto.Crates.{Crates, Rng}
use evnx_crypto.Crates.Random.{Random, lift, draw, ◌>>=◌}
use evnx_crypto.Errors.{CryptoError}
use evnx_crypto.Keypair.Types.{UserKeypair, UserPublicKeys, WrappedVaultKey}
use evnx_crypto.Keypair.UserKeypair as Own
use evnx_crypto.Keypair.Wrap.{wrap_vault_key_for_user}
use evnx_crypto.Vault.Store.{Version, Store, push as pushed, reencrypt_all, edit}
use evnx_crypto.Vault.VaultKey
use evnx_crypto.Vault.VaultKey.{VaultKey}

-- What the server holds of a member: the published keys, and the vault key wrapped for them.
pub record Grant : Type 0 where
  pub keys : UserPublicKeys
  pub wrapped : WrappedVaultKey

-- The key of the store is the inviting client's; the server holds the blobs and the grants.
pub record Team : Type 0 where
  pub store : Store
  pub grants : List Grant

-- A member is expelled by the place of the grant.
pub data TeamEdit (c : Crates) : Type 0 where
  push : Version → TeamEdit c
  invite : UserKeypair c → TeamEdit c
  expel : ℕ → TeamEdit c

abbrev pub erase {ℓ} : {A : Type ℓ} → ℕ → List A → List A
erase i [] = []
erase zero (x ∷ xs) = xs
erase (suc i) (x ∷ xs) = x ∷ erase i xs

module _ (c : Crates) where
  unfoldable pub grant : VaultKey → UserPublicKeys → Random (Rng c) CryptoError Grant
  grant key keys = do
    wrapped ← wrap_vault_key_for_user c key keys
    lift (ok (record { keys = keys; wrapped = wrapped }))

  -- The key is wrapped anew for every member who stays.
  unfoldable pub grant_all : VaultKey → List Grant → Random (Rng c) CryptoError (List Grant)
  grant_all key [] = lift (ok [])
  grant_all key (x ∷ rest) = do
    y ← grant key x.keys
    others ← grant_all key rest
    lift (ok (y ∷ others))

  -- Of the keypair of an invited user the client reads the public keys alone.
  unfoldable pub team_edit : Team → TeamEdit c → Random (Rng c) CryptoError Team
  team_edit t (push v) = do
    store ← edit c t.store (pushed v)
    lift (ok (record { store = store; grants = t.grants }))
  team_edit t (invite user) = do
    x ← grant t.store.key (Own.public_keys c user)
    lift (ok (record { store = t.store; grants = x ∷ t.grants }))
  team_edit t (expel i) = do
    key ← draw (VaultKey.generate c)
    stored ← reencrypt_all c t.store.key key t.store.stored
    grants ← grant_all key (erase i t.grants)
    lift (ok (record { store = record { key = key; stored = stored }; grants = grants }))

  unfoldable pub team_edit_all : Team → List (TeamEdit c) → Random (Rng c) CryptoError Team
  team_edit_all t [] = lift (ok t)
  team_edit_all t (e ∷ rest) = do u ← team_edit t e; team_edit_all u rest

  -- The abstract team: the members, the last one invited first, and the versions that were pushed.
  abbrev pub join : List (UserKeypair c) → TeamEdit c → List (UserKeypair c)
  join us (push v) = us
  join us (invite user) = user ∷ us
  join us (expel i) = erase i us

  abbrev pub record_push : List Version → TeamEdit c → List Version
  record_push log (push v) = v ∷ log
  record_push log (invite user) = log
  record_push log (expel i) = log

  abbrev pub members : List (UserKeypair c) → List (TeamEdit c) → List (UserKeypair c)
  members us [] = us
  members us (e ∷ rest) = members (join us e) rest

  abbrev pub versions : List Version → List (TeamEdit c) → List Version
  versions log [] = log
  versions log (e ∷ rest) = versions (record_push log e) rest
