-- ===== src/Vault/Store/Represents.antt =====
-- How the blobs of a server represent the versions that were pushed, and that edits keep it.
use evnx_crypto.Base.{List, [], ◌∷◌, ◌≡◌, arith, refl}
use evnx_crypto.Base.Outcome.{ok}
use evnx_crypto.Crates.{Crates, Rng}
use evnx_crypto.Crates.Random.{IsFilling}
use evnx_crypto.Crates.Sealing.{IsAead}
use evnx_crypto.Vault.Aad.{length-vault_aad}
use evnx_crypto.Vault.Blob.{encrypt_vault_total}
use evnx_crypto.Vault.Identity.{vault_aad}
use evnx_crypto.Vault.Open.{IsBlob, decrypt_vault}
use evnx_crypto.Vault.Rekey.{reencrypt_vault_opened}
use evnx_crypto.Vault.Store.{
  Version, Stored, Store, Edit, push, rotate, reencrypt_all, edit, edit_all, record_edit, history,
  IsBounded, AllBounded,
}
use evnx_crypto.Vault.VaultKey
use evnx_crypto.Vault.VaultKey.{VaultKey, IsVaultKey}

module _ (c : Crates) where
  -- The blob is the version's plaintext, sealed for the version's id and number.
  pub record IsSealed (k : VaultKey) (x : Stored) (v : Version) : Type 0 where
    pub same_id : x.vault_id ≡ v.vault_id
    pub same_number : x.number ≡ v.number
    pub bounded : IsBounded (push v)
    pub nonce_length : IsBlob x.blob
    pub opens : decrypt_vault c x.blob k (vault_aad v.vault_id v.number) ≡ ok v.plaintext

  abbrev pub Represents : VaultKey → List Stored → List Version → Type 0
  Represents k [] [] = Unit {0}
  Represents k [] (v ∷ vs) = ⊥
  Represents k (x ∷ xs) [] = ⊥
  Represents k (x ∷ xs) (v ∷ vs) = IsSealed k x v × Represents k xs vs

  abbrev pub IsStore : Store → List Version → Type 0
  IsStore s log = IsVaultKey s.key × Represents s.key s.stored log

  module _ (a : IsAead c.aes) (f : IsFilling c.rand) where
    pub reencrypt_all-Represents :
        (old new : VaultKey) (xs : List Stored) (vs : List Version) (g : Rng c)
        → IsVaultKey old
        → IsVaultKey new
        → Represents old xs vs
        → (ys : List Stored) × (g' : Rng c) × (reencrypt_all c old new xs g ≡ (ok ys, g'))
          × Represents new ys vs
    unfolding reencrypt_all
    reencrypt_all-Represents old new [] [] g ho hn r = ([], g, refl, tt)
    reencrypt_all-Represents old new [] (v ∷ vs) g ho hn r = elim r [ ]
    reencrypt_all-Represents old new (x ∷ xs) [] g ho hn r = elim r [ ]
    reencrypt_all-Represents old new (x ∷ xs) (v ∷ vs) g ho hn (s, r) =
        let (hm, hid, hv) = s.bounded in
        let (b, g1, e, hb, n, opened) =
          reencrypt_vault_opened c x.blob old new (vault_aad v.vault_id v.number) g a f hn
            (omega arith) (omega (arith, length-vault_aad v.vault_id v.number)) s.opens in
        let (ys, g2, e', r') = reencrypt_all-Represents old new xs vs g1 ho hn r in
        let y : Stored = record { vault_id = x.vault_id; number = x.number; blob = b } in
        (
          y ∷ ys,
          g2,
          ground (arith, e, e', s.same_id, s.same_number),
          (
            record {
              same_id = s.same_id;
              same_number = s.same_number;
              bounded = s.bounded;
              nonce_length = hb;
              opens = opened;
            },
            r',
          ),
        )

    pub generate-IsVaultKey : (g : Rng c) → IsVaultKey (VaultKey.generate c g).0
    unfolding VaultKey.generate
    generate-IsVaultKey g = f.length-fill_bytes 32 g

    pub edit-IsStore :
        (s : Store) (e : Edit) (log : List Version) (g : Rng c)
        → IsBounded e
        → IsStore s log
        → (t : Store) × (g' : Rng c) × (edit c s e g ≡ (ok t, g')) × IsStore t (record_edit log e)
    unfolding edit
    edit-IsStore s (push v) log g (hm, hid, hv) (hk, r) =
        let (b, g', e, hb, _, opened) =
          encrypt_vault_total c v.plaintext (vault_aad v.vault_id v.number) s.key g a f hk
            (omega arith) (omega (arith, length-vault_aad v.vault_id v.number)) in
        let x : Stored = record { vault_id = v.vault_id; number = v.number; blob = b } in
        (
          record { key = s.key; stored = x ∷ s.stored },
          g',
          ground (arith, e),
          (
            hk,
            (
              record {
                same_id = refl;
                same_number = refl;
                bounded = (hm, hid, hv);
                nonce_length = hb;
                opens = opened;
              },
              r,
            ),
          ),
        )
    edit-IsStore s rotate log g hb (hk, r) =
        let (k, g1) = VaultKey.generate c g in
        let (ys, g', e, r') =
          reencrypt_all-Represents s.key k s.stored log g1 hk (generate-IsVaultKey g) r in
        (record { key = k; stored = ys }, g', ground (arith, e), (generate-IsVaultKey g, r'))

    pub edit_all-IsStore :
        (s : Store) (es : List Edit) (log : List Version) (g : Rng c)
        → AllBounded es
        → IsStore s log
        → (t : Store) × (g' : Rng c) × (edit_all c s es g ≡ (ok t, g')) × IsStore t (history log es)
    unfolding edit_all
    edit_all-IsStore s [] log g hb i = (s, g, refl, i)
    edit_all-IsStore s (e ∷ es) log g (he, hes) i =
        let (t, g1, run, i') = edit-IsStore s e log g he i in
        let (u, g2, run', i'') = edit_all-IsStore t es (record_edit log e) g1 hes i' in
        (u, g2, ground (arith, run, run'), i'')
