-- ===== src/Team/Expelled.antt =====
-- What the expulsion of a member does: a new key, for those who stay.
use evnx_crypto.Base.Outcome.{ok}
use evnx_crypto.Base.{ℕ, suc, List, [], ◌∷◌, ◌≡◌, some, length, get_elem?, refl, ap, arith}
use evnx_crypto.Crates.Curve.{IsX25519}
use evnx_crypto.Crates.Kdf.{IsHkdf}
use evnx_crypto.Crates.Kem.{IsMlKem}
use evnx_crypto.Crates.Random.{IsFilling}
use evnx_crypto.Crates.Sealing.{IsAead}
use evnx_crypto.Crates.{Crates, Rng}
use evnx_crypto.Keypair.Types.{UserKeypair}
use evnx_crypto.Keypair.Unwrap.{unwrap_vault_key}
use evnx_crypto.Keypair.UserKeypair as Own
use evnx_crypto.Team.Access.{team_edit-IsTeam, team_edit_all-IsTeam, grant_at}
use evnx_crypto.Team.Granting.{founded, Grants, EditIsFit, AllFit}
use evnx_crypto.Team.{
  Grant, Team, TeamEdit, expel, erase, team_edit, team_edit_all, members, versions,
}
use evnx_crypto.Vault.Identity.{vault_aad}
use evnx_crypto.Vault.Open.{decrypt_vault}
use evnx_crypto.Vault.Store.Pull.{blob_at}
use evnx_crypto.Vault.Store.{Version, Stored}
use evnx_crypto.Vault.VaultKey
use evnx_crypto.Vault.VaultKey.{VaultKey, IsVaultKey}

module _ (c : Crates) (a : IsAead c.xchacha) (aes : IsAead c.aes) (h : IsHkdf c.hkdf)
    (f : IsFilling c.rand) (x : IsX25519 c.x25519) (m : IsMlKem c.mlkem) where
  length-Grants :
      (k : VaultKey) (xs : List Grant) (us : List (UserKeypair c))
      → Grants c k xs us
      → length xs ≡ length us
  length-Grants k [] [] r = refl
  length-Grants k [] (u ∷ us) r = elim r [ ]
  length-Grants k (y ∷ xs) [] r = elim r [ ]
  length-Grants k (y ∷ xs) (u ∷ us) (s, r) = ap suc (length-Grants k xs us r)

  expelled_key :
      (t : Team) (n : ℕ) (g : Rng c) {t' : Team} {g' : Rng c}
      → team_edit c t (expel n) g ≡ (ok t', g')
      → t'.store.key.bytes ≡ (c.rand.fill_bytes 32 g).0
  unfolding team_edit VaultKey.generate
  expelled_key t n g e = ground arith

  -- With crates that behave as documented and a first key of 32 bytes: after any sequence of
  -- pushes, invitations and expulsions, the pushes within the bounds of the cipher and of the
  -- version field, the invited keypairs complete and ML-KEM correct for the draws that are made,
  -- expelling a member succeeds; the new vault key is the 32 bytes that the generator gives at that
  -- moment, there is one grant for each member who stays, which names the public keys of that
  -- member and unwraps to the new key, and the blob at each place of the history opens under the
  -- new key, at its vault id and version, to the plaintext that was pushed.
  pub expulsion_rotates :
      (k : VaultKey) (es : List (TeamEdit c)) (g : Rng c) (n i j : ℕ) {u : UserKeypair c}
      {v : Version}
      → IsVaultKey k
      → AllFit c (founded c k) [] es g
      → ((t : Team) (g1 : Rng c)
          → team_edit_all c (founded c k) es g ≡ (ok t, g1)
          → EditIsFit c t (members c [] es) (expel n) g1)
      → get_elem? (erase n (members c [] es)) j ≡ some u
      → get_elem? (versions c [] es) i ≡ some v
      → (t : Team) × (g1 : Rng c) × (t' : Team) × (g' : Rng c) × (y : Grant) × (s : Stored)
        × (team_edit_all c (founded c k) es g ≡ (ok t, g1))
        × (team_edit c t (expel n) g1 ≡ (ok t', g'))
        × (t'.store.key.bytes ≡ (c.rand.fill_bytes 32 g1).0)
        × (length t'.grants ≡ length (erase n (members c [] es)))
        × (get_elem? t'.grants j ≡ some y)
        × (y.keys ≡ Own.public_keys c u)
        × (unwrap_vault_key c y.wrapped u ≡ ok t'.store.key)
        × (get_elem? t'.store.stored i ≡ some s)
        × (decrypt_vault c s.blob t'.store.key (vault_aad v.vault_id v.number) ≡ ok v.plaintext)
  expulsion_rotates k es g n i j hk fit last member pushed =
      let us = members c [] es in
      let log = versions c [] es in
      let (t, g1, run, team) =
        team_edit_all-IsTeam c a aes h f x m es (founded c k) [] [] g ((hk, tt), tt) fit in
      let (t', g', step, ((_, r), granted)) =
        team_edit-IsTeam c a aes h f x m t (expel n) us log g1 team (last t g1 run) in
      let (y, has, of_member) =
        grant_at c a aes h f x m t'.store.key t'.grants (erase n us) j granted member in
      let (s, at, sealed) = blob_at c t'.store.key t'.store.stored log i r pushed in
      (
        t,
        g1,
        t',
        g',
        y,
        s,
        run,
        step,
        expelled_key t n g1 step,
        length-Grants t'.store.key t'.grants (erase n us) granted,
        has,
        of_member.published,
        of_member.opens,
        at,
        sealed.opens,
      )
