-- ===== src/Vault/Store/Pull.antt =====
-- What a pull gives of a vault with a history, from an honest server and from any other.
use evnx_crypto.Base.{
  ℕ, zero, suc, List, [], ◌∷◌, ◌≡◌, ◌⊎◌, inl, inr, ◌^◌, ◌<◌, some, get_elem?, refl, ap, ◌∙◌,
}
use evnx_crypto.Base.Bytes.{Bytes, Text, bytes_eq_cases}
use evnx_crypto.Base.Outcome.{ok}
use evnx_crypto.Crates.{Crates, Rng}
use evnx_crypto.Crates.Random.{IsFilling}
use evnx_crypto.Crates.Sealing.{IsAead}
use evnx_crypto.Vault.Aad.{vault_aad-injective}
use evnx_crypto.Vault.Blob.{AadForgery, decrypt_vault-eq_ok_iff}
use evnx_crypto.Vault.Identity.{vault_aad}
use evnx_crypto.Vault.Open.{decrypt_vault}
use evnx_crypto.Vault.Store.{Version, Stored, Store, Edit, edit_all, history, AllBounded}
use evnx_crypto.Vault.Store.Represents.{IsSealed, Represents, IsStore, edit_all-IsStore}
use evnx_crypto.Vault.VaultKey.{VaultKey, IsVaultKey}

module _ (c : Crates) where
  -- Where the server holds a blob, a version was pushed, and where one was pushed, it holds a blob.
  pub version_at :
      (k : VaultKey) (xs : List Stored) (vs : List Version) (i : ℕ) {x : Stored}
      → Represents c k xs vs
      → get_elem? xs i ≡ some x
      → (v : Version) × (get_elem? vs i ≡ some v) × IsSealed c k x v
  version_at k [] vs i r e = cc
  version_at k (y ∷ xs) [] i r e = elim r [ ]
  version_at k (y ∷ xs) (v ∷ vs) zero {x} (s, r) e =
      let same : y ≡ x = cc in (v, refl, rw (← same) s)
  version_at k (y ∷ xs) (v ∷ vs) (suc i) (s, r) e = version_at k xs vs i r e

  pub blob_at :
      (k : VaultKey) (xs : List Stored) (vs : List Version) (i : ℕ) {v : Version}
      → Represents c k xs vs
      → get_elem? vs i ≡ some v
      → (x : Stored) × (get_elem? xs i ≡ some x) × IsSealed c k x v
  blob_at k xs [] i r e = cc
  blob_at k [] (v ∷ vs) i r e = elim r [ ]
  blob_at k (x ∷ xs) (w ∷ vs) zero {v} (s, r) e = let same : w ≡ v = cc in (x, refl, rw (← same) s)
  blob_at k (x ∷ xs) (w ∷ vs) (suc i) (s, r) e = blob_at k xs vs i r e

  module _ (a : IsAead c.aes) (f : IsFilling c.rand) where
    -- With an AES-GCM and a generator that behave as documented, a first key of 32 bytes, and
    -- pushes within the bounds of the cipher and of the version field: every sequence of pushes and
    -- key rotations succeeds, and for each place of the abstract history the server then holds a
    -- blob that opens, under the current key and at the vault id and version of that place, to the
    -- plaintext that was pushed.
    pull_returns_push :
        (k : VaultKey) (es : List Edit) (g : Rng c) (i : ℕ) {v : Version}
        → IsVaultKey k
        → AllBounded es
        → get_elem? (history [] es) i ≡ some v
        → (s : Store) × (g' : Rng c) × (x : Stored) × (edit_all c
              (record { key = k; stored = [] })
              es
              g
            ≡ (ok s, g'))
          × (get_elem? s.stored i ≡ some x)
          × (decrypt_vault c x.blob s.key (vault_aad v.vault_id v.number) ≡ ok v.plaintext)
    pull_returns_push k es g i hk hb e =
        let (s, g', run, (_, r)) =
          edit_all-IsStore c a f (record { key = k; stored = [] }) es [] g hb (hk, tt) in
        let (x, at, sealed) = blob_at s.key s.stored (history [] es) i r e in
        (s, g', x, run, at, sealed.opens)

    final-IsStore :
        (k : VaultKey) (es : List Edit) (g : Rng c) {s : Store} {g' : Rng c}
        → IsVaultKey k
        → AllBounded es
        → edit_all c (record { key = k; stored = [] }) es g ≡ (ok s, g')
        → IsStore c s (history [] es)
    final-IsStore k es g {s} hk hb run =
        let (t, g1, run', i) =
          edit_all-IsStore c a f (record { key = k; stored = [] }) es [] g hb (hk, tt) in
        let same : t ≡ s = cc in rw (← same) i

    -- A blob that was sealed for a version and opens at an id and a number.
    opened_elsewhere :
        (k : VaultKey) (x : Stored) (v : Version) (id : Text) (n : ℕ) (m : Bytes)
        → IsVaultKey k
        → n < 2 ^ 32
        → IsSealed c k x v
        → decrypt_vault c x.blob k (vault_aad id n) ≡ ok m
        → (v ≡ record { vault_id = id; number = n; plaintext = m }) ⊎ AadForgery c k x.blob
    opened_elsewhere k x v id n m hk hn s opened =
        elim (bytes_eq_cases (vault_aad v.vault_id v.number) (vault_aad id n)) [
          | inl e ↦
              let (same_id, same_number) =
                vault_aad-injective v.vault_id id v.number n s.bounded.2 hn e in
              let same : v.plaintext ≡ m =
                let opens : decrypt_vault c x.blob k (vault_aad id n) ≡ ok v.plaintext =
                  rw e at s.opens in
                cc (opens, opened) in
              inl (cc (same_id, same_number, same))
          | inr other ↦ inr (
            vault_aad v.vault_id v.number,
            vault_aad id n,
            v.plaintext,
            m,
            other,
            (decrypt_vault-eq_ok_iff c x.blob k (vault_aad v.vault_id v.number) v.plaintext a hk
                  s.nonce_length).0
                s.opens,
            (decrypt_vault-eq_ok_iff c x.blob k (vault_aad id n) m a hk s.nonce_length).0 opened,
          )
        ]

    -- With an AES-GCM and a generator that behave as documented, a first key of 32 bytes, and
    -- pushes within the bounds of the cipher and of the version field: whatever blob a server
    -- returns after any sequence of pushes and key rotations, and for whatever vault id and version
    -- below 2 ^ 32 it was asked, if the blob opens to a plaintext then the abstract history has, at
    -- the place of that blob, this plaintext for this vault id and version, or the blob is a
    -- forgery under the current key: one ciphertext that the cipher gives for two different
    -- associated data.
    pub pull_refines_history :
        (k : VaultKey) (es : List Edit) (g : Rng c) (i : ℕ) (id : Text) (n : ℕ) (m : Bytes)
        {s : Store} {g' : Rng c} {x : Stored}
        → IsVaultKey k
        → AllBounded es
        → n < 2 ^ 32
        → edit_all c (record { key = k; stored = [] }) es g ≡ (ok s, g')
        → get_elem? s.stored i ≡ some x
        → decrypt_vault c x.blob s.key (vault_aad id n) ≡ ok m
        → (get_elem? (history [] es) i ≡ some (record { vault_id = id; number = n; plaintext = m }))
          ⊎ AadForgery c s.key x.blob
    pull_refines_history k es g i id n m hk hb hn run at opened =
        let (hk', r) = final-IsStore k es g hk hb run in
        let (v, pushed, sealed) = version_at _ _ (history [] es) i r at in
        elim (opened_elsewhere _ _ v id n m hk' hn sealed opened) [
          | inl same ↦ inl (pushed ∙ ap some same)
          | inr forged ↦ inr forged
        ]
