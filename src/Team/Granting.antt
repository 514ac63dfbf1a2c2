-- ===== src/Team/Granting.antt =====
-- What makes a grant and a team right, what an edit asks for, and that wrapping anew keeps the
-- grants of all who stay.
use evnx_crypto.Base.Outcome.{ok}
use evnx_crypto.Base.{ℕ, zero, suc, List, [], ◌∷◌, ◌≡◌, arith, refl, ap}
use evnx_crypto.Crates.Curve.{IsX25519}
use evnx_crypto.Crates.Kdf.{IsHkdf}
use evnx_crypto.Crates.Kem.{IsMlKem}
use evnx_crypto.Crates.Random.{IsFilling}
use evnx_crypto.Crates.Sealing.{IsAead}
use evnx_crypto.Crates.{Crates, Rng}
use evnx_crypto.Keypair.Laws.Identity.{IsUserKeypair}
use evnx_crypto.Keypair.Laws.Share.{WrapsFrom, wrap_for_user_then_unwrap}
use evnx_crypto.Keypair.Types.{UserKeypair}
use evnx_crypto.Keypair.Unwrap.{unwrap_vault_key}
use evnx_crypto.Keypair.UserKeypair as Own
use evnx_crypto.Team.{
  Grant, Team, TeamEdit, push, invite, expel, erase, grant, grant_all, team_edit, join,
}
use evnx_crypto.Vault.Store as Vault
use evnx_crypto.Vault.Store.Represents.{IsStore}
use evnx_crypto.Vault.Store.{Version, Stored, Store, reencrypt_all, edit, IsBounded}
use evnx_crypto.Vault.VaultKey
use evnx_crypto.Vault.VaultKey.{VaultKey, IsVaultKey}

module _ (c : Crates) where
  -- A new vault, with its key, and no member yet.
  abbrev pub founded : VaultKey → Team
  founded k = record { store = record { key = k; stored = [] }; grants = [] }

  -- The user has a complete keypair, whose public keys the grant has, and opens it to the key.
  pub record IsGranted (k : VaultKey) (x : Grant) (u : UserKeypair c) : Type 0 where
    pub complete : IsUserKeypair c u
    pub published : x.keys ≡ Own.public_keys c u
    pub opens : unwrap_vault_key c x.wrapped u ≡ ok k

  abbrev pub Grants : VaultKey → List Grant → List (UserKeypair c) → Type 0
  Grants k [] [] = Unit {0}
  Grants k [] (u ∷ us) = ⊥
  Grants k (x ∷ xs) [] = ⊥
  Grants k (x ∷ xs) (u ∷ us) = IsGranted k x u × Grants k xs us

  abbrev pub IsTeam : Team → List (UserKeypair c) → List Version → Type 0
  IsTeam t us log = IsStore c t.store log × Grants t.store.key t.grants us

  -- ML-KEM is correct for the draws that the wraps for these users make, one after the other.
  abbrev pub WrapsAll : VaultKey → List Grant → List (UserKeypair c) → Rng c → Type 0
  WrapsAll k xs [] g = Unit {0}
  WrapsAll k [] (u ∷ us) g = Unit {0}
  WrapsAll k (x ∷ xs) (u ∷ us) g = WrapsFrom c g u × WrapsAll k xs us (grant c k x.keys g).1

  -- A push is within the bounds, an invited user has a complete keypair, and ML-KEM is correct for
  -- the draws that the edit makes.
  abbrev pub EditIsFit : Team → List (UserKeypair c) → TeamEdit c → Rng c → Type 0
  EditIsFit t us (push v) g = IsBounded (Vault.push v)
  EditIsFit t us (invite user) g = IsUserKeypair c user × WrapsFrom c g user
  EditIsFit t us (expel i) g =
      let (k, g1) = VaultKey.generate c g in
      let g2 = (reencrypt_all c t.store.key k t.store.stored g1).1 in
      WrapsAll k (erase i t.grants) (erase i us) g2

  -- Every edit is fit where it is made.
  abbrev pub AllFit : Team → List (UserKeypair c) → List (TeamEdit c) → Rng c → Type 0
  AllFit t us [] g = Unit {0}
  AllFit t us (e ∷ es) g =
      EditIsFit t us e g
      × ((u : Team) (g' : Rng c) → team_edit c t e g ≡ (ok u, g') → AllFit u (join c us e) es g')

  module _ (a : IsAead c.xchacha) (aes : IsAead c.aes) (h : IsHkdf c.hkdf) (f : IsFilling c.rand)
      (x : IsX25519 c.x25519) (m : IsMlKem c.mlkem) where
    pub grant-IsGranted :
        (k : VaultKey) (u : UserKeypair c) (g : Rng c)
        → IsVaultKey k
        → IsUserKeypair c u
        → WrapsFrom c g u
        → (y : Grant) × (g' : Rng c) × (grant c k (Own.public_keys c u) g ≡ (ok y, g'))
          × IsGranted k y u
    unfolding grant
    grant-IsGranted k u g hk hu correct =
        let (w, g', e, _, _, _, opens) =
          wrap_for_user_then_unwrap c k u g a h f x m hu hk correct in
        (
          record { keys = Own.public_keys c u; wrapped = w },
          g',
          ground (arith, e),
          record { complete = hu; published = refl; opens = opens },
        )

    pub grant_all-Grants :
        (old new : VaultKey) (xs : List Grant) (us : List (UserKeypair c)) (g : Rng c)
        → IsVaultKey new
        → Grants old xs us
        → WrapsAll new xs us g
        → (ys : List Grant) × (g' : Rng c) × (grant_all c new xs g ≡ (ok ys, g')) × Grants new ys us
    unfolding grant_all
    grant_all-Grants old new [] [] g hk r correct = ([], g, refl, tt)
    grant_all-Grants old new [] (u ∷ us) g hk r correct = elim r [ ]
    grant_all-Grants old new (y ∷ xs) [] g hk r correct = elim r [ ]
    grant_all-Grants old new (y ∷ xs) (u ∷ us) g hk (s, r) (now, later) =
        let (z, g1, e, granted) = grant-IsGranted new u g hk s.complete now in
        let made : grant c new y.keys g ≡ (ok z, g1) = rw s.published e in
        let later' : WrapsAll new xs us g1 = rw (ap (λ p. p.1) made) at later in
        let (zs, g2, e', rest) = grant_all-Grants old new xs us g1 hk r later' in
        (z ∷ zs, g2, ground (arith, made, e'), (granted, rest))

    pub erase-Grants :
        (k : VaultKey) (i : ℕ) (xs : List Grant) (us : List (UserKeypair c))
        → Grants k xs us
        → Grants k (erase i xs) (erase i us)
    erase-Grants k i [] [] r = tt
    erase-Grants k i [] (u ∷ us) r = elim r [ ]
    erase-Grants k i (y ∷ xs) [] r = elim r [ ]
    erase-Grants k zero (y ∷ xs) (u ∷ us) r = r.1
    erase-Grants k (suc i) (y ∷ xs) (u ∷ us) (s, r) = (s, erase-Grants k i xs us r)
