-- ===== src/Tests/Team.antt =====
-- The theorems about a team at a concrete one.
use evnx_crypto.Base.Bytes.{Bytes, ascii, to_byte}
use evnx_crypto.Base.Outcome.{ok}
use evnx_crypto.Base.{ℕ, List, [], ◌∷◌, ◌++◌, ◌≡◌, some, get_elem?, length, refl, arith, replicate}
use evnx_crypto.Crates.{Rng}
use evnx_crypto.Keypair.Derive.{derive_x25519_from_ed25519_seed, derive_mlkem_from_ed25519_seed}
use evnx_crypto.Keypair.Laws.Identity.{IsUserKeypair}
use evnx_crypto.Keypair.MlKem768PublicKey as Public
use evnx_crypto.Keypair.Types.{UserKeypair}
use evnx_crypto.Keypair.Unwrap.{unwrap_vault_key}
use evnx_crypto.Keypair.UserKeypair.{public_keys}
use evnx_crypto.Team.Access.{members_read_history}
use evnx_crypto.Team.Expelled.{expulsion_rotates}
use evnx_crypto.Team.Granting.{founded, WrapsAll, AllFit, EditIsFit}
use evnx_crypto.Team.{
  Team, team_edit, TeamEdit, Grant, push, invite, expel, team_edit_all, grant, members,
}
use evnx_crypto.Tests.Data.{vk, kp, plaintext}
use evnx_crypto.Tests.Keys.{kp-IsUserKeypair, wraps}
use evnx_crypto.Tests.Store.{version}
use evnx_crypto.Tests.Toy.{crates, fit, head, point_bytes}
use evnx_crypto.Tests.ToyLaws.{
  aead-IsAead, rand-IsFilling, hkdf-IsHkdf, x25519-IsX25519, mlkem-IsMlKem,
}
use evnx_crypto.Vault.Identity.{vault_aad}
use evnx_crypto.Vault.Open.{decrypt_vault}
use evnx_crypto.Vault.Store.{Stored}
use evnx_crypto.Vault.VaultKey.{VaultKey}
use evnx_crypto.Zeroize.SecretArray

-- Decapsulation is correct for every draw, so an edit is fit from every state if it is from one.
wraps_all :
    (k : VaultKey) (xs : List Grant) (us : List (UserKeypair crates)) (g : Rng crates)
    → WrapsAll crates k xs us g
wraps_all k xs [] g = tt
wraps_all k [] (u ∷ us) g = tt
wraps_all k (x ∷ xs) (u ∷ us) g = (wraps u g, wraps_all k xs us (grant crates k x.keys g).1)

-- A second member.
abbrev seed : Bytes
seed = replicate 32 (to_byte 6)

abbrev scalar : Bytes
scalar = fit 32 (ascii "evnx-x25519-from-ed25519-v1" ++ seed)

abbrev other : UserKeypair crates
other = record {
  ed25519_private_seed = seed;
  ed25519_public = record { bytes = seed };
  x25519_private = scalar;
  x25519_public = record { bytes = point_bytes (head scalar, to_byte 1) };
  mlkem_decap = to_byte b'e';
  mlkem_public = record { bytes = replicate 1184 (to_byte b'e') };
}

other-IsUserKeypair : IsUserKeypair crates other
unfolding derive_x25519_from_ed25519_seed derive_mlkem_from_ed25519_seed Public.from_bytes
    SecretArray.zeroed SecretArray.expose_mut SecretArray.into_inner SecretArray.expose
other-IsUserKeypair = record {
  seed_length = refl;
  ed25519_public_eq = refl;
  x25519_derived = refl;
  x25519_length = refl;
  x25519_public_eq = refl;
  mlkem_derived = refl;
  mlkem_public_eq = refl;
}

-- Two members come, one goes, and versions are pushed before and after.
abbrev edits : List (TeamEdit crates)
edits = invite kp ∷ push (version 6) ∷ invite other ∷ expel 1 ∷ push (version 7) ∷ []

edits-AllFit : AllFit crates (founded crates vk) [] edits 3
edits-AllFit = (
  (kp-IsUserKeypair, wraps kp 3),
  λ t1 g1 _. (
    (omega arith, omega arith, omega arith),
    λ t2 g2 _. (
      (other-IsUserKeypair, wraps other g2),
      λ t3 g3 _.
          (search wraps_all, λ t4 g4 _. ((omega arith, omega arith, omega arith), λ _ _ _. tt)),
    ),
  ),
)

members_read_history_example :
    (t : Team) × (g' : ℕ) × (y : Grant) × (x : Stored) × (team_edit_all crates
        (founded crates vk)
        edits
        3
      ≡ (ok t, g'))
    × (get_elem? t.grants 0 ≡ some y)
    × (get_elem? t.store.stored 1 ≡ some x)
    × (unwrap_vault_key crates y.wrapped other ≡ ok t.store.key)
    × (decrypt_vault crates x.blob t.store.key (vault_aad (version 6).vault_id 6) ≡ ok plaintext)
members_read_history_example =
    members_read_history crates aead-IsAead aead-IsAead hkdf-IsHkdf rand-IsFilling x25519-IsX25519
      mlkem-IsMlKem vk edits 3 1 0 refl edits-AllFit refl refl

-- Two members and a version; then the one who came first goes.
abbrev first_edits : List (TeamEdit crates)
first_edits = invite kp ∷ push (version 6) ∷ invite other ∷ []

first_edits-AllFit : AllFit crates (founded crates vk) [] first_edits 3
first_edits-AllFit = (
  (kp-IsUserKeypair, wraps kp 3),
  λ t1 g1 _. (
    (omega arith, omega arith, omega arith),
    λ t2 g2 _. ((other-IsUserKeypair, wraps other g2), λ _ _ _. tt),
  ),
)

last-EditIsFit :
    (t : Team) (g1 : ℕ)
    → team_edit_all crates (founded crates vk) first_edits 3 ≡ (ok t, g1)
    → EditIsFit crates t (members crates [] first_edits) (expel 1) g1
last-EditIsFit t g1 e = search wraps_all

expulsion_rotates_example :
    (t : Team) × (g1 : ℕ) × (t' : Team) × (g' : ℕ) × (y : Grant) × (s : Stored) × (team_edit_all
        crates
        (founded crates vk)
        first_edits
        3
      ≡ (ok t, g1))
    × (team_edit crates t (expel 1) g1 ≡ (ok t', g'))
    × (t'.store.key.bytes ≡ (crates.rand.fill_bytes 32 g1).0)
    × (length t'.grants ≡ 1)
    × (get_elem? t'.grants 0 ≡ some y)
    × (y.keys ≡ public_keys crates other)
    × (unwrap_vault_key crates y.wrapped other ≡ ok t'.store.key)
    × (get_elem? t'.store.stored 0 ≡ some s)
    × (decrypt_vault crates s.blob t'.store.key (vault_aad (version 6).vault_id 6) ≡ ok plaintext)
expulsion_rotates_example =
    expulsion_rotates crates aead-IsAead aead-IsAead hkdf-IsHkdf rand-IsFilling x25519-IsX25519
      mlkem-IsMlKem vk first_edits 3 1 0 0 refl first_edits-AllFit last-EditIsFit refl refl
