-- ===== src/Kdf/Derivation.antt =====
-- Proofs about the derivations of src/kdf.rs.
use evnx_crypto.Base.{◌^◌, ◌<◌, ◌≡◌, ◌≢◌, inr, some, length, arith}
use evnx_crypto.Base.Bytes.{Bytes}
use evnx_crypto.Base.Outcome.{ok}
use evnx_crypto.Crates.{Crates}
use evnx_crypto.Crates.Kdf.{IsArgon2, IsHkdf, argon2id, v0x13}
use evnx_crypto.Kdf.MasterKey.{MasterKey, IsMasterKey}
use evnx_crypto.Kdf.{
  derive_master_key, derive_srp_password, hkdf_subkey, kdf_domain_master_key,
  kdf_domain_srp_password,
}
use evnx_crypto.Zeroize.SecretArray
use evnx_crypto.Zeroize.SecretArray.{SecretArray}

module _ (c : Crates) where
  -- Argon2id at the costs of the crate, with this secret, gives this output of 32 bytes.
  abbrev pub Hashes : Bytes → Bytes → Bytes → Bytes → Type 0
  Hashes secret password salt out =
      (q : c.argon2.Params) × (x : c.argon2.Context) × (c.argon2.new_params 65536 3 4 32 ≡ inr q)
      × (c.argon2.new_with_secret secret argon2id v0x13 q ≡ inr x)
      × (c.argon2.hash_password_into x password salt 32 ≡ inr out)

  Hashes-total :
      (secret password salt : Bytes)
      → IsArgon2 c.argon2
      → length secret < 2 ^ 32
      → length password < 2 ^ 32
      → length salt ≡ 32
      → (out : Bytes) × Hashes secret password salt out × (length out ≡ 32)
  Hashes-total secret password salt a hs hp l =
      let params =
        a.new_params_ok 65536 3 4 32 (omega arith) (omega arith) (omega arith) (omega arith)
          (omega arith) (omega arith) (omega arith) in
      let (q, eq) = params in
      let (x, ex) = a.new_with_secret_ok secret argon2id v0x13 q hs in
      let (out, eo) =
        a.hash_password_into_ok x password salt 32 hp (omega arith) (omega arith) (omega arith)
          (omega arith) in
      (out, (q, x, eq, ex, eo), a.length-hash_password_into x password salt 32 out eo)

  pub derive_master_key-Hashes :
      (password salt : Bytes) {k : MasterKey}
      → derive_master_key c password salt ≡ ok k
      → Hashes kdf_domain_master_key password salt k.bytes
  unfolding derive_master_key
  derive_master_key-Hashes password salt h = ground arith

  pub derive_master_key-IsMasterKey :
      (password salt : Bytes) {k : MasterKey}
      → IsArgon2 c.argon2
      → derive_master_key c password salt ≡ ok k
      → IsMasterKey k
  derive_master_key-IsMasterKey password salt a h =
      let (_, x, _, _, e) = derive_master_key-Hashes password salt h in
      a.length-hash_password_into x password salt 32 _ e

  derive_srp_password-Hashes :
      (password salt : Bytes) {out : Bytes}
      → derive_srp_password c password salt ≡ ok out
      → Hashes kdf_domain_srp_password password salt out
  unfolding derive_srp_password
  derive_srp_password-Hashes password salt h = ground arith

  -- With an Argon2 that behaves as documented, a password below 2 ^ 32 bytes and a salt of 32: a
  -- master key is derived, and it has 32 bytes.
  pub derive_master_key_total :
      (password salt : Bytes)
      → IsArgon2 c.argon2
      → length password < 2 ^ 32
      → length salt ≡ 32
      → (k : MasterKey) × (derive_master_key c password salt ≡ ok k) × IsMasterKey k
  unfolding derive_master_key
  derive_master_key_total password salt a h l =
      let (out, (q, x, eq, ex, eo), n) =
        Hashes-total kdf_domain_master_key password salt a (omega arith) h l in
      (record { bytes = out }, rw (eq, ex, eo), n)

  pub derive_srp_password_total :
      (password salt : Bytes)
      → IsArgon2 c.argon2
      → length password < 2 ^ 32
      → length salt ≡ 32
      → (out : Bytes) × (derive_srp_password c password salt ≡ ok out) × (length out ≡ 32)
  unfolding derive_srp_password
  derive_srp_password_total password salt a h l =
      let (out, (q, x, eq, ex, eo), n) =
        Hashes-total kdf_domain_srp_password password salt a (omega arith) h l in
      (out, rw (eq, ex, eo), n)

  domains_differ : kdf_domain_master_key ≢ kdf_domain_srp_password
  domains_differ e = cc

  -- If the master key and the SRP password input that are derived from one password and one salt
  -- are the same bytes, then Argon2id gives these bytes for two different secrets, at that password
  -- and salt and at the costs of the crate.
  pub reused_salt-collision :
      (password salt : Bytes) {k : MasterKey} {out : Bytes}
      → derive_master_key c password salt ≡ ok k
      → derive_srp_password c password salt ≡ ok out
      → k.bytes ≡ out
      → (s : Bytes) × (t : Bytes) × (s ≢ t)
        × Hashes s password salt out
        × Hashes t password salt out
  reused_salt-collision password salt h l e = (
    kdf_domain_master_key,
    kdf_domain_srp_password,
    domains_differ,
    rw e at (derive_master_key-Hashes password salt h),
    derive_srp_password-Hashes password salt l,
  )

  -- A subkey has 32 bytes, and the derivation cannot fail.
  pub hkdf_subkey_total :
      (ikm info : Bytes)
      → IsHkdf c.hkdf
      → (k : SecretArray) × (hkdf_subkey c ikm info ≡ ok k)
        × (length (SecretArray.expose k) ≡ 32)
        × (c.hkdf.expand (c.hkdf.extract ikm) info 32 ≡ some (SecretArray.expose k))
  unfolding hkdf_subkey SecretArray.expose
  hkdf_subkey_total ikm info h =
      let (out, e) = h.expand_ok (c.hkdf.extract ikm) info 32 (omega arith) in
      (record { bytes = out }, rw e, h.length-expand _ info 32 out e, e)
