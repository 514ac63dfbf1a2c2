-- ===== src/Crates/Kdf.antt =====
-- `argon2` and `hkdf` (with SHA-256).
use evnx_crypto.Base.Bytes.{Bytes}
use evnx_crypto.Base.{ℕ, ◌*◌, ◌^◌, ◌≤◌, ◌<◌, ◌≡◌, ◌⊎◌, inr, String, Option, some, length}

pub data Algorithm : Type 0 where
  argon2d argon2i argon2id : Algorithm

pub data Version : Type 0 where
  v0x10 v0x13 : Version

-- A failure is the text of the crate's error.
pub record Argon2 : Type 1 where
  pub Params : Type 0
  pub Context : Type 0
  -- `Params::new(m_cost, t_cost, p_cost, Some(output_len))`
  pub new_params : ℕ → ℕ → ℕ → ℕ → String ⊎ Params
  pub new_with_secret : Bytes → Algorithm → Version → Params → String ⊎ Context
  -- The password, the salt, and the length of the output buffer.
  pub hash_password_into : Context → Bytes → Bytes → ℕ → String ⊎ Bytes

-- The limits that the crate documents: at least 8 blocks of memory to a lane, an output of 4
-- bytes or more, a salt of 8 bytes or more, and inputs below 2 ^ 32 bytes.
pub record IsArgon2 (a : Argon2) : Type 0 where
  pub new_params_ok :
      (m t p n : ℕ)
      → 8 * p ≤ m
      → 1 ≤ t
      → 1 ≤ p
      → p < 2 ^ 24
      → m < 2 ^ 32
      → 4 ≤ n
      → n < 2 ^ 32
      → (q : a.Params) × (a.new_params m t p n ≡ inr q)
  pub new_with_secret_ok :
      (secret : Bytes) (alg : Algorithm) (v : Version) (q : a.Params)
      → length secret < 2 ^ 32
      → (x : a.Context) × (a.new_with_secret secret alg v q ≡ inr x)
  pub hash_password_into_ok :
      (x : a.Context) (password salt : Bytes) (n : ℕ)
      → length password < 2 ^ 32
      → 8 ≤ length salt
      → length salt < 2 ^ 32
      → 4 ≤ n
      → n < 2 ^ 32
      → (out : Bytes) × (a.hash_password_into x password salt n ≡ inr out)
  pub length-hash_password_into :
      (x : a.Context) (password salt : Bytes) (n : ℕ) (out : Bytes)
      → a.hash_password_into x password salt n ≡ inr out
      → length out ≡ n

pub record Hkdf : Type 1 where
  pub State : Type 0
  -- `Hkdf::new(None, ikm)`
  pub extract : Bytes → State
  -- `expand(info, buffer)`, by the length of the buffer.
  pub expand : State → Bytes → ℕ → Option Bytes

-- HKDF-SHA256 gives up to 255 blocks of 32 bytes.
pub record IsHkdf (h : Hkdf) : Type 0 where
  pub expand_ok :
      (s : h.State) (info : Bytes) (n : ℕ)
      → n ≤ 255 * 32
      → (out : Bytes) × (h.expand s info n ≡ some out)
  pub length-expand :
      (s : h.State) (info : Bytes) (n : ℕ) (out : Bytes)
      → h.expand s info n ≡ some out
      → length out ≡ n
