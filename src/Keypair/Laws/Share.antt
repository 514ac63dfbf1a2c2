-- ===== src/Keypair/Laws/Share.antt =====
-- `wrap_vault_key_for_user` and `unwrap_vault_key` of src/keypair.rs against each other.
use evnx_crypto.Base.{
  ◌+◌, ◌≤◌, ◌≡◌, true, Option, some, none, [], ◌++◌, length, length-append, length-take, take, drop,
  take-append, drop-append, arith, sym, ap, ◌∙◌, if◌then◌else◌, ◌==◌,
}
use evnx_crypto.Base.Bytes.{Bytes}
use evnx_crypto.Base.Outcome.{ok, err}
use evnx_crypto.Crates.{Crates, Rng}
use evnx_crypto.Crates.Curve.{IsX25519}
use evnx_crypto.Crates.Kdf.{IsHkdf}
use evnx_crypto.Crates.Kem.{IsMlKem, Decapsulates}
use evnx_crypto.Crates.Random.{IsFilling}
use evnx_crypto.Crates.Sealing.{IsAead}
use evnx_crypto.Errors.{Result, invalid_input, key_unwrap}
use evnx_crypto.Kdf.{hkdf_subkey}
use evnx_crypto.Keypair.Cipher.{new_xchacha_cipher_from_nonce}
use evnx_crypto.Keypair.FreshCipher.{new_xchacha_cipher}
use evnx_crypto.Keypair.Hybrid.{hybrid_ikm, hybrid_wrap_key}
use evnx_crypto.Keypair.Laws.Identity.{IsUserKeypair}
use evnx_crypto.Keypair.Laws.Kem.{encapsulate_then_decapsulate}
use evnx_crypto.Keypair.Types.{
  UserKeypair, UserPublicKeys, WrappedVaultKey, hkdf_info_vault_key_wrap,
}
use evnx_crypto.Keypair.Unwrap.{mlkem_decapsulate, unwrap_vault_key}
use evnx_crypto.Keypair.UserKeypair as Own
use evnx_crypto.Keypair.Wrap.{mlkem_encapsulate, wrap_vault_key_for_user}
use evnx_crypto.Vault.VaultKey
use evnx_crypto.Vault.VaultKey.{VaultKey, IsVaultKey}
use evnx_crypto.Zeroize.SecretArray

-- ML-KEM is correct for the draw that a wrap for this user makes from this generator.
abbrev pub WrapsFrom : (c : Crates) → Rng c → UserKeypair c → Type 0
WrapsFrom c g kp =
    Decapsulates c.mlkem kp.mlkem_decap (c.rand.fill_bytes 32 (c.x25519.random_from_rng g).1).0

-- What unwrapping makes of what the cipher opened.
abbrev pub opened : Option Bytes → Result VaultKey
opened none = err key_unwrap
opened (some p) =
    if length p == 32
    then ok (record { bytes = p })
    else err (invalid_input "decrypted vault key wrong length")

module _ (c : Crates) where
  -- The cipher of the hybrid wrap key for these secrets and this transcript.
  abbrev pub IsHybridCipher : Bytes → Bytes → Bytes → Bytes → Bytes → c.xchacha.Cipher → Type 0
  IsHybridCipher ssm ssx ct eph rec k =
      (key : Bytes) × (c.hkdf.expand (c.hkdf.extract (hybrid_ikm ssm ssx ct eph rec))
          hkdf_info_vault_key_wrap 32
        ≡ some key)
      × (c.xchacha.new_from_slice key ≡ some k)

  pub IsHybridCipher-total :
      (ssm ssx ct eph rec : Bytes)
      → IsHkdf c.hkdf
      → IsAead c.xchacha
      → (k : c.xchacha.Cipher) × IsHybridCipher ssm ssx ct eph rec k
  IsHybridCipher-total ssm ssx ct eph rec h a =
      let info = hkdf_info_vault_key_wrap in
      let s = c.hkdf.extract (hybrid_ikm ssm ssx ct eph rec) in
      let (key, e) = h.expand_ok s info 32 (omega arith) in
      let (k, ek) = a.new_from_slice_ok key (h.length-expand s info 32 key e) in (k, (key, e, ek))

  -- The secret of the receiving side.
  abbrev pub static_secret : UserKeypair c → Bytes → c.x25519.SharedSecret
  static_secret kp eph =
      c.x25519.static_dh (c.x25519.static_from kp.x25519_private) (c.x25519.public_from eph)

  wrap_lem :
      (vk : VaultKey) (rec : UserPublicKeys) (g g2 : Rng c) {ct ss sealed : Bytes}
      {k : c.xchacha.Cipher}
      → let (eph, g1) = c.x25519.random_from_rng g in
        let shared = c.x25519.ephemeral_dh eph (c.x25519.public_from rec.x25519.bytes) in
        let eph_pub = c.x25519.public_to_bytes (c.x25519.ephemeral_public eph) in
        let (nonce, g3) = c.rand.fill_bytes 24 g2 in
        c.x25519.was_contributory shared ≡ true
        → mlkem_encapsulate c rec.mlkem g1 ≡ (ok (ct, ss), g2)
        → IsHybridCipher ss (c.x25519.as_bytes shared) ct eph_pub rec.x25519.bytes k
        → length nonce ≡ 24
        → c.xchacha.encrypt k nonce [] vk.bytes ≡ some sealed
        → wrap_vault_key_for_user c vk rec g ≡ (
          ok (record {
            eph_pub_key = eph_pub;
            mlkem_ciphertext = ct;
            encrypted_vault_key = nonce ++ sealed;
          }),
          g3,
        )
  unfolding wrap_vault_key_for_user hybrid_wrap_key hkdf_subkey new_xchacha_cipher VaultKey.expose
      SecretArray.expose
  wrap_lem vk rec g g2 con enc derived hn e = ground (arith, derived)

  pub unwrap_lem :
      (w : WrappedVaultKey) (kp : UserKeypair c) {ss : Bytes} {k : c.xchacha.Cipher}
      → c.x25519.was_contributory (static_secret kp w.eph_pub_key) ≡ true
      → mlkem_decapsulate c kp w.mlkem_ciphertext ≡ ok ss
      → IsHybridCipher ss
          (c.x25519.as_bytes (static_secret kp w.eph_pub_key))
          w.mlkem_ciphertext
          w.eph_pub_key
          kp.x25519_public.bytes
          k
      → 24 ≤ length w.encrypted_vault_key
      → unwrap_vault_key c w kp
        ≡ opened
            (c.xchacha.decrypt k (take 24 w.encrypted_vault_key) [] (drop 24 w.encrypted_vault_key))
  unfolding unwrap_vault_key hybrid_wrap_key hkdf_subkey new_xchacha_cipher_from_nonce
      VaultKey.from_bytes SecretArray.expose
  unwrap_lem w kp con dec derived long =
      ground (arith, derived, length-take 24 w.encrypted_vault_key)

  -- Both sides of the exchange hold the same secret, and it is contributory.
  same_secret :
      (kp : UserKeypair c) (eph : c.x25519.EphemeralSecret)
      → IsX25519 c.x25519
      → IsUserKeypair c kp
      → let shared = c.x25519.ephemeral_dh eph (c.x25519.public_from kp.x25519_public.bytes) in
        (shared ≡ static_secret kp (c.x25519.public_to_bytes (c.x25519.ephemeral_public eph)))
        × (c.x25519.was_contributory shared ≡ true)
  same_secret kp eph x v =
      let s = c.x25519.static_from kp.x25519_private in
      let e : c.x25519.public_from kp.x25519_public.bytes ≡ c.x25519.static_public s =
        rw v.x25519_public_eq (x.public_from-public_to_bytes (c.x25519.static_public s)) in
      (
        rw e (
            x.dh_comm eph s
            ∙ ap (c.x25519.static_dh s)
                (sym (x.public_from-public_to_bytes (c.x25519.ephemeral_public eph)))),
        rw e (x.was_contributory_honest eph s),
      )

  IsHybridCipher-shared :
      {s t : c.x25519.SharedSecret} {k : c.xchacha.Cipher} (ss ct eph rec : Bytes)
      → s ≡ t
      → IsHybridCipher ss (c.x25519.as_bytes s) ct eph rec k
      → IsHybridCipher ss (c.x25519.as_bytes t) ct eph rec k
  IsHybridCipher-shared ss ct eph rec same derived = rw same at derived

  -- With crates that behave as documented, an ML-KEM that is correct for the draw that is made, a
  -- complete keypair and a vault key of 32 bytes: wrapping the vault key for the public keys of the
  -- keypair succeeds, with an ephemeral key of 32 bytes, an ML-KEM ciphertext of 1088 and a sealed
  -- key of 72, and the keypair unwraps the result to the same vault key.
  pub wrap_for_user_then_unwrap :
      (vk : VaultKey) (kp : UserKeypair c) (g : Rng c)
      → IsAead c.xchacha
      → IsHkdf c.hkdf
      → IsFilling c.rand
      → IsX25519 c.x25519
      → IsMlKem c.mlkem
      → IsUserKeypair c kp
      → IsVaultKey vk
      → Decapsulates c.mlkem kp.mlkem_decap (c.rand.fill_bytes 32 (c.x25519.random_from_rng g).1).0
      → (w : WrappedVaultKey) × (g' : Rng c) × (wrap_vault_key_for_user c vk
            (Own.public_keys c kp)
            g
          ≡ (ok w, g'))
        × (length w.eph_pub_key ≡ 32)
        × (length w.mlkem_ciphertext ≡ 1088)
        × (length w.encrypted_vault_key ≡ 72)
        × (unwrap_vault_key c w kp ≡ ok vk)
  unfolding Own.public_keys
  wrap_for_user_then_unwrap vk kp g a h f x m v hk correct =
      let (eph, g1) = c.x25519.random_from_rng g in
      let eph_pub = c.x25519.public_to_bytes (c.x25519.ephemeral_public eph) in
      let own = kp.x25519_public.bytes in
      let shared = c.x25519.ephemeral_dh eph (c.x25519.public_from own) in
      let (same, con) = same_secret kp eph x v in
      let (ct, ss, enc, nct, nss, dec) = encapsulate_then_decapsulate c kp g1 m v correct in
      let g2 = (c.rand.fill_bytes 32 g1).1 in
      let (nonce, g3) = c.rand.fill_bytes 24 g2 in
      let hn : length nonce ≡ 24 = f.length-fill_bytes 24 g2 in
      let (k, derived) = IsHybridCipher-total ss (c.x25519.as_bytes shared) ct eph_pub own h a in
      let (sealed, e) = a.encrypt_ok k nonce [] vk.bytes (omega arith) (omega arith) in
      let n : length sealed ≡ length vk.bytes + 16 =
        a.length-encrypt k nonce [] vk.bytes sealed e in
      let w : WrappedVaultKey = record {
        eph_pub_key = eph_pub;
        mlkem_ciphertext = ct;
        encrypted_vault_key = nonce ++ sealed;
      } in
      let size : length (nonce ++ sealed) ≡ 72 = omega (arith, length-append nonce sealed) in
      let con' : c.x25519.was_contributory (static_secret kp eph_pub) ≡ true = rw same at con in
      let derived' : IsHybridCipher ss (c.x25519.as_bytes (static_secret kp eph_pub)) ct eph_pub own
          k =
        IsHybridCipher-shared ss ct eph_pub own same derived in
      let unsealed : c.xchacha.decrypt k (take 24 (nonce ++ sealed)) [] (drop 24 (nonce ++ sealed))
          ≡ some vk.bytes =
        rw (take-append 24 nonce sealed hn, drop-append 24 nonce sealed hn)
          (a.decrypt-encrypt k nonce [] vk.bytes sealed e) in
      (
        w,
        g3,
        wrap_lem vk (Own.public_keys c kp) g g2 con enc derived hn e,
        x.length-public_to_bytes (c.x25519.ephemeral_public eph),
        nct,
        size,
        ground (arith, unwrap_lem w kp con' dec derived' (omega arith)),
      )
