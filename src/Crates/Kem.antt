-- ===== src/Crates/Kem.antt =====
-- `ml-kem` at the parameter set 768.
use evnx_crypto.Base.Bytes.{Bytes, zeros}
use evnx_crypto.Base.{◌≡◌, Option, some, length}

pub record MlKem : Type 1 where
  pub DecapsulationKey : Type 0
  pub EncapsulationKey : Type 0
  -- An encoded encapsulation key, of the right length and not yet checked.
  pub Key : Type 0
  pub from_seed : Bytes → DecapsulationKey
  pub encapsulation_key : DecapsulationKey → EncapsulationKey
  pub to_bytes : EncapsulationKey → Bytes
  pub try_from : Bytes → Option Key
  pub new : Key → Option EncapsulationKey
  -- The ciphertext and the shared secret, from 32 random bytes.
  pub encapsulate_deterministic : EncapsulationKey → Bytes → Bytes × Bytes
  pub decapsulate_slice : DecapsulationKey → Bytes → Option Bytes
  -- What the memory of a dropped key holds.
  pub drop : DecapsulationKey → Bytes

pub record IsMlKem (m : MlKem) : Type 0 where
  pub length-to_bytes : (ek : m.EncapsulationKey) → length (m.to_bytes ek) ≡ 1184
  -- The encoding of a key parses to that key.
  pub new-to_bytes :
      (ek : m.EncapsulationKey)
      → (k : m.Key) × (m.try_from (m.to_bytes ek) ≡ some k) × (m.new k ≡ some ek)
  pub length-ciphertext :
      (ek : m.EncapsulationKey) (r : Bytes) → length (m.encapsulate_deterministic ek r).0 ≡ 1088
  pub length-secret :
      (ek : m.EncapsulationKey) (r : Bytes) → length (m.encapsulate_deterministic ek r).1 ≡ 32
  -- Decapsulation refuses a ciphertext of another length, and no other ciphertext.
  pub decapsulate_slice_ok :
      (dk : m.DecapsulationKey) (ct : Bytes)
      → length ct ≡ 1088
      → (ss : Bytes) × (m.decapsulate_slice dk ct ≡ some ss)
  pub decapsulate_slice_length :
      (dk : m.DecapsulationKey) (ct ss : Bytes)
      → m.decapsulate_slice dk ct ≡ some ss
      → (length ct ≡ 1088) × (length ss ≡ 32)
  -- The feature `zeroize`, which the build asks for, wipes the key.
  pub drop-zeros : (dk : m.DecapsulationKey) → m.drop dk ≡ zeros (length (m.drop dk))

-- Correctness of the KEM for one key and one draw. FIPS 203 bounds the share of draws for which
-- it fails by 2 ^ -164, so it is asked for where it is used and not of the crate as a whole.
abbrev pub Decapsulates : (m : MlKem) → m.DecapsulationKey → Bytes → Type 0
Decapsulates m dk r =
    let (ct, ss) = m.encapsulate_deterministic (m.encapsulation_key dk) r in
    m.decapsulate_slice dk ct ≡ some ss
