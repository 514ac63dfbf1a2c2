-- ===== src/Team/Access.antt =====
-- Every member of the team reads the whole history, whoever came and went in between.
use evnx_crypto.Base.Outcome.{ok}
use evnx_crypto.Base.{ℕ, zero, suc, List, [], ◌∷◌, ◌≡◌, arith, refl, ap, some, get_elem?}
use evnx_crypto.Crates.Curve.{IsX25519}
use evnx_crypto.Crates.Kdf.{IsHkdf}
use evnx_crypto.Crates.Kem.{IsMlKem}
use evnx_crypto.Crates.Random.{IsFilling}
use evnx_crypto.Crates.Sealing.{IsAead}
use evnx_crypto.Crates.{Crates, Rng}
use evnx_crypto.Keypair.Types.{UserKeypair}
use evnx_crypto.Keypair.Unwrap.{unwrap_vault_key}
use evnx_crypto.Team.Granting.{
  founded, IsGranted, Grants, IsTeam, WrapsAll, EditIsFit, AllFit, grant-IsGranted,
  grant_all-Grants, erase-Grants,
}
use evnx_crypto.Team.{
  Grant, Team, TeamEdit, push, invite, expel, erase, team_edit, team_edit_all, join, record_push,
  members, versions,
}
use evnx_crypto.Vault.Identity.{vault_aad}
use evnx_crypto.Vault.Open.{decrypt_vault}
use evnx_crypto.Vault.Store as Vault
use evnx_crypto.Vault.Store.Pull.{blob_at}
use evnx_crypto.Vault.Store.Represents.{edit-IsStore, reencrypt_all-Represents, generate-IsVaultKey}
use evnx_crypto.Vault.Store.{Version, Stored, Store, reencrypt_all, edit, IsBounded}
use evnx_crypto.Vault.VaultKey
use evnx_crypto.Vault.VaultKey.{VaultKey, IsVaultKey}

module _ (c : Crates) where
  module _ (a : IsAead c.xchacha) (aes : IsAead c.aes) (h : IsHkdf c.hkdf) (f : IsFilling c.rand)
      (x : IsX25519 c.x25519) (m : IsMlKem c.mlkem) where
    push_keeps_key :
        (s : Store) (v : Version) (g : Rng c) {t : Store} {g' : Rng c}
        → edit c s (Vault.push v) g ≡ (ok t, g')
        → t.key ≡ s.key
    unfolding edit
    push_keeps_key s v g e = ground arith

    pub team_edit-IsTeam :
        (t : Team) (e : TeamEdit c) (us : List (UserKeypair c)) (log : List Version) (g : Rng c)
        → IsTeam c t us log
        → EditIsFit c t us e g
        → (t' : Team) × (g' : Rng c) × (team_edit c t e g ≡ (ok t', g'))
          × IsTeam c t' (join c us e) (record_push c log e)
    unfolding team_edit
    team_edit-IsTeam t (push v) us log g (i, r) fit =
        let (s, g', e, i') = edit-IsStore c aes f t.store (Vault.push v) log g fit i in
        let kept : s.key ≡ t.store.key = push_keeps_key t.store v g e in
        (record { store = s; grants = t.grants }, g', ground (arith, e), (i', rw kept r))
    team_edit-IsTeam t (invite user) us log g (i, r) (hu, correct) =
        let (y, g', e, granted) =
          grant-IsGranted c a aes h f x m t.store.key user g i.0 hu correct in
        (
          record { store = t.store; grants = y ∷ t.grants },
          g',
          ground (arith, e),
          (i, (granted, r)),
        )
    team_edit-IsTeam t (expel n) us log g ((hk, i), r) correct =
        let (k, g1) = VaultKey.generate c g in
        let hn = generate-IsVaultKey c aes f g in
        let (stored, g2, e, i') =
          reencrypt_all-Represents c aes f t.store.key k t.store.stored log g1 hk hn i in
        let correct' : WrapsAll c k (erase n t.grants) (erase n us) g2 =
          rw (ap (λ p. p.1) e) at correct in
        let (ys, g3, e', r') =
          grant_all-Grants c a aes h f x m t.store.key k (erase n t.grants) (erase n us) g2 hn
            (erase-Grants c a aes h f x m t.store.key n t.grants us r) correct' in
        (
          record { store = record { key = k; stored = stored }; grants = ys },
          g3,
          ground (arith, e, e'),
          ((hn, i'), r'),
        )

    pub team_edit_all-IsTeam :
        (es : List (TeamEdit c)) (t : Team) (us : List (UserKeypair c)) (log : List Version)
        (g : Rng c)
        → IsTeam c t us log
        → AllFit c t us es g
        → (t' : Team) × (g' : Rng c) × (team_edit_all c t es g ≡ (ok t', g'))
          × IsTeam c t' (members c us es) (versions c log es)
    unfolding team_edit_all
    team_edit_all-IsTeam [] t us log g i fit = (t, g, refl, i)
    team_edit_all-IsTeam (e ∷ es) t us log g i (now, later) =
        let (t1, g1, step, i1) = team_edit-IsTeam t e us log g i now in
        let (t2, g2, rest, i2) =
          team_edit_all-IsTeam es t1 (join c us e) (record_push c log e) g1 i1 (later t1 g1 step) in
        (t2, g2, ground (arith, step, rest), i2)

    pub grant_at :
        (k : VaultKey) (xs : List Grant) (us : List (UserKeypair c)) (j : ℕ) {u : UserKeypair c}
        → Grants c k xs us
        → get_elem? us j ≡ some u
        → (y : Grant) × (get_elem? xs j ≡ some y) × IsGranted c k y u
    grant_at k xs [] j r e = cc
    grant_at k [] (w ∷ us) j r e = elim r [ ]
    grant_at k (y ∷ xs) (w ∷ us) zero {u} (s, r) e =
        let same : w ≡ u = cc in (y, refl, rw (← same) s)
    grant_at k (y ∷ xs) (w ∷ us) (suc j) (s, r) e = grant_at k xs us j r e

    -- With crates that behave as documented and a first key of 32 bytes: after any sequence of
    -- pushes, invitations and expulsions, the pushes within the bounds of the cipher and of the
    -- version field, the invited keypairs complete and ML-KEM correct for the draws that are made,
    -- all of the edits have succeeded, and whoever is a member then, invited at any time and not
    -- expelled since, has a grant that unwraps to a vault key under which the blob at each place of
    -- the history opens, at its vault id and version, to the plaintext that was pushed.
    pub members_read_history :
        (k : VaultKey) (es : List (TeamEdit c)) (g : Rng c) (i j : ℕ) {u : UserKeypair c}
        {v : Version}
        → IsVaultKey k
        → AllFit c (founded c k) [] es g
        → get_elem? (members c [] es) j ≡ some u
        → get_elem? (versions c [] es) i ≡ some v
        → (t : Team) × (g' : Rng c) × (y : Grant) × (x : Stored) × (team_edit_all c
              (founded c k)
              es
              g
            ≡ (ok t, g'))
          × (get_elem? t.grants j ≡ some y)
          × (get_elem? t.store.stored i ≡ some x)
          × (unwrap_vault_key c y.wrapped u ≡ ok t.store.key)
          × (decrypt_vault c x.blob t.store.key (vault_aad v.vault_id v.number) ≡ ok v.plaintext)
    members_read_history k es g i j hk fit member pushed =
        let (t, g', run, ((_, r), granted)) =
          team_edit_all-IsTeam es (founded c k) [] [] g ((hk, tt), tt) fit in
        let (y, has, granted_at) =
          grant_at t.store.key t.grants (members c [] es) j granted member in
        let (x, at, sealed) = blob_at c t.store.key t.store.stored (versions c [] es) i r pushed in
        (t, g', y, x, run, has, at, granted_at.opens, sealed.opens)
