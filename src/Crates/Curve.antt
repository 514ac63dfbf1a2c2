-- ===== src/Crates/Curve.antt =====
-- `ed25519-dalek` and `x25519-dalek`.
use evnx_crypto.Base.Bytes.{Bytes, all_zero}
use evnx_crypto.Base.{◌≡◌, Bool, true, not, length}

pub record Ed25519 (Rng : Type 0) : Type 1 where
  pub SigningKey : Type 0
  pub generate : Rng → SigningKey × Rng
  -- From and to the 32-byte seed.
  pub from_bytes : Bytes → SigningKey
  pub to_bytes : SigningKey → Bytes
  -- `verifying_key().to_bytes()`
  pub verifying_key : SigningKey → Bytes

pub record IsEd25519 {Rng : Type 0} (e : Ed25519 Rng) : Type 0 where
  pub length-to_bytes : (k : e.SigningKey) → length (e.to_bytes k) ≡ 32
  pub length-verifying_key : (k : e.SigningKey) → length (e.verifying_key k) ≡ 32
  pub from_bytes-to_bytes : (k : e.SigningKey) → e.from_bytes (e.to_bytes k) ≡ k

pub record X25519 (Rng : Type 0) : Type 1 where
  pub StaticSecret : Type 0
  pub EphemeralSecret : Type 0
  pub PublicKey : Type 0
  pub SharedSecret : Type 0
  pub static_from : Bytes → StaticSecret
  pub static_to_bytes : StaticSecret → Bytes
  pub random_from_rng : Rng → EphemeralSecret × Rng
  pub static_public : StaticSecret → PublicKey
  pub ephemeral_public : EphemeralSecret → PublicKey
  pub public_from : Bytes → PublicKey
  pub public_to_bytes : PublicKey → Bytes
  pub static_dh : StaticSecret → PublicKey → SharedSecret
  pub ephemeral_dh : EphemeralSecret → PublicKey → SharedSecret
  pub was_contributory : SharedSecret → Bool
  pub as_bytes : SharedSecret → Bytes

pub record IsX25519 {Rng : Type 0} (x : X25519 Rng) : Type 0 where
  pub static_to_bytes-static_from :
      (b : Bytes) → length b ≡ 32 → x.static_to_bytes (x.static_from b) ≡ b
  pub length-public_to_bytes : (p : x.PublicKey) → length (x.public_to_bytes p) ≡ 32
  pub length-as_bytes : (k : x.SharedSecret) → length (x.as_bytes k) ≡ 32
  pub public_from-public_to_bytes : (p : x.PublicKey) → x.public_from (x.public_to_bytes p) ≡ p
  -- Both sides compute the same secret.
  pub dh_comm :
      (e : x.EphemeralSecret) (s : x.StaticSecret)
      → x.ephemeral_dh e (x.static_public s) ≡ x.static_dh s (x.ephemeral_public e)
  -- A secret is contributory unless it is all zero.
  pub was_contributory_lem :
      (k : x.SharedSecret) → x.was_contributory k ≡ not (all_zero (x.as_bytes k))
  -- A clamped scalar is no multiple of the order of the base point, so keys that were generated
  -- always agree on a contributory secret.
  pub was_contributory_honest :
      (e : x.EphemeralSecret) (s : x.StaticSecret)
      → x.was_contributory (x.ephemeral_dh e (x.static_public s)) ≡ true
