-- ===== src/Passwords.antt =====
-- What a password gives of an account, through src/kdf.rs, src/keypair.rs and src/vault.rs: a sealed
-- private key or a wrapped vault key that opens under two passwords.
use evnx_crypto.Base.Bytes.{Bytes, bytes_eq_cases}
use evnx_crypto.Base.Outcome.{ok}
use evnx_crypto.Base.{◌≡◌, ◌≢◌, ◌⊎◌, inl, inr, some, [], take, drop}
use evnx_crypto.Crates.Curve.{IsX25519}
use evnx_crypto.Crates.Kdf.{IsHkdf}
use evnx_crypto.Crates.Kem.{IsMlKem}
use evnx_crypto.Crates.Sealing.{IsAead}
use evnx_crypto.Crates.{Crates}
use evnx_crypto.Kdf.Derivation.{Hashes, derive_master_key-Hashes}
use evnx_crypto.Kdf.MasterKey.{MasterKey}
use evnx_crypto.Kdf.{derive_master_key, kdf_domain_master_key}
use evnx_crypto.Keypair.Laws.Seal.{decrypt_private_key-IsUserKeypair}
use evnx_crypto.Keypair.PrivateKey.{decrypt_private_key}
use evnx_crypto.Keypair.Types.{UserKeypair, EncryptedPrivateKey, hkdf_info_private_key_enc}
use evnx_crypto.Vault.Open.{hkdf_info_vault_key_wrap_mk, unwrap_vault_key_with_master_key}
use evnx_crypto.Vault.VaultKey.{VaultKey}
use evnx_crypto.Vault.Wrap.{unwrap_accepts_wraps}

module _ (c : Crates) where
  -- Argon2id gives the master key for either of two different pairs of a password and a salt.
  abbrev pub PasswordCollision : Bytes → Bytes → Bytes → Bytes → MasterKey → Type 0
  PasswordCollision password salt password' salt' mk =
      ¬ ((password ≡ password') × (salt ≡ salt'))
      × Hashes c kdf_domain_master_key password salt mk.bytes
      × Hashes c kdf_domain_master_key password' salt' mk.bytes

  abbrev pub IsSubkey : MasterKey → Bytes → Bytes → Type 0
  IsSubkey mk info subkey = c.hkdf.expand (c.hkdf.extract mk.bytes) info 32 ≡ some subkey

  -- HKDF expands these two master keys, which differ, to one subkey.
  abbrev pub SubkeyCollision : Bytes → MasterKey → MasterKey → Type 0
  SubkeyCollision info mk mk' =
      (mk.bytes ≢ mk'.bytes) × (subkey : Bytes) × IsSubkey mk info subkey × IsSubkey mk' info subkey

  -- The plaintext seals to the ciphertext under the subkey of the master key.
  abbrev IsSealedUnder : MasterKey → Bytes → Bytes → Bytes → Bytes → Bytes → Type 0
  IsSealedUnder mk info subkey nonce m ct =
      (k : c.xchacha.Cipher) × IsSubkey mk info subkey
      × (c.xchacha.new_from_slice subkey ≡ some k)
      × (c.xchacha.encrypt k nonce [] m ≡ some ct)

  -- The cipher gives the ciphertext for the two plaintexts, under the subkeys of the two master
  -- keys, which differ.
  abbrev pub SealCollision : Bytes → MasterKey → MasterKey → Bytes → Bytes → Bytes → Bytes → Type 0
  SealCollision info mk mk' nonce m m' ct =
      (subkey : Bytes) × (subkey' : Bytes) × (subkey ≢ subkey')
      × IsSealedUnder mk info subkey nonce m ct
      × IsSealedUnder mk' info subkey' nonce m' ct

  module _ (password salt password' salt' : Bytes) {mk mk' : MasterKey}
      (other_input : ¬ ((password ≡ password') × (salt ≡ salt')))
      (derived : derive_master_key c password salt ≡ ok mk)
      (derived' : derive_master_key c password' salt' ≡ ok mk') where
    sealed_under_both :
        (info nonce m m' ct : Bytes) {sub sub' : Bytes}
        → IsSealedUnder mk info sub nonce m ct
        → IsSealedUnder mk' info sub' nonce m' ct
        → PasswordCollision password salt password' salt' mk
          ⊎ SubkeyCollision info mk mk'
          ⊎ SealCollision info mk mk' nonce m m' ct
    sealed_under_both info nonce m m' ct {sub} {sub'} s s' =
        elim (bytes_eq_cases mk.bytes mk'.bytes) [
          | inl same ↦ inl (
            other_input,
            derive_master_key-Hashes c password salt derived,
            rw same (derive_master_key-Hashes c password' salt' derived'),
          )
          | inr other ↦ inr (elim (bytes_eq_cases sub sub') [
            | inl equal ↦ inl (other, sub, s.1, rw equal (s'.1))
            | inr differ ↦ inr (sub, sub', differ, s, s')
          ])
        ]

    -- With an XChaCha20-Poly1305, an HKDF, an ML-KEM and an X25519 that behave as documented, and
    -- two master keys derived from two different pairs of a password and a salt: if one sealed
    -- private key opens under both, then Argon2id gives the one master key for either pair; or the
    -- master keys differ and HKDF expands these two to one subkey; or their subkeys differ and the
    -- cipher gives the sealed ciphertext, at its nonce, under the subkeys of these two master keys
    -- for the seeds of the two keypairs that it opened to.
    pub private_key_under_both :
        (enc : EncryptedPrivateKey) {kp kp' : UserKeypair c}
        → IsAead c.xchacha
        → IsHkdf c.hkdf
        → IsMlKem c.mlkem
        → IsX25519 c.x25519
        → decrypt_private_key c enc mk ≡ ok kp
        → decrypt_private_key c enc mk' ≡ ok kp'
        → PasswordCollision password salt password' salt' mk
          ⊎ SubkeyCollision hkdf_info_private_key_enc mk mk'
          ⊎ SealCollision hkdf_info_private_key_enc mk mk' enc.nonce kp.ed25519_private_seed
              kp'.ed25519_private_seed enc.ciphertext
    private_key_under_both enc {kp} {kp'} a h m x opened opened' =
        let (_, k, (_, e, ek), s) = decrypt_private_key-IsUserKeypair c enc mk a h m x opened in
        let (_, k', (_, e', ek'), s') =
          decrypt_private_key-IsUserKeypair c enc mk' a h m x opened' in
        sealed_under_both hkdf_info_private_key_enc enc.nonce kp.ed25519_private_seed
          kp'.ed25519_private_seed enc.ciphertext (k, e, ek, s) (k', e', ek', s')

    -- With an XChaCha20-Poly1305 and an HKDF that behave as documented, and two master keys derived
    -- from two different pairs of a password and a salt: if one wrapped vault key unwraps under
    -- both, then Argon2id gives the one master key for either pair; or the master keys differ and
    -- HKDF expands these two to one subkey; or their subkeys differ and the cipher gives the
    -- wrapped ciphertext, at its nonce, under the subkeys of these two master keys for the two
    -- vault keys that it unwrapped to.
    pub vault_key_under_both :
        (w : Bytes) {vk vk' : VaultKey}
        → IsAead c.xchacha
        → IsHkdf c.hkdf
        → unwrap_vault_key_with_master_key c w mk ≡ ok vk
        → unwrap_vault_key_with_master_key c w mk' ≡ ok vk'
        → PasswordCollision password salt password' salt' mk
          ⊎ SubkeyCollision hkdf_info_vault_key_wrap_mk mk mk'
          ⊎ SealCollision hkdf_info_vault_key_wrap_mk mk mk'
              (take 24 w)
              vk.bytes
              vk'.bytes
              (drop 24 w)
    vault_key_under_both w {vk} {vk'} a h opened opened' =
        let (_, _, k, (_, e, ek), s) = unwrap_accepts_wraps c w mk a h opened in
        let (_, _, k', (_, e', ek'), s') = unwrap_accepts_wraps c w mk' a h opened' in
        sealed_under_both hkdf_info_vault_key_wrap_mk (take 24 w) vk.bytes vk'.bytes (drop 24 w)
          (k, e, ek, s) (k', e', ek', s')
