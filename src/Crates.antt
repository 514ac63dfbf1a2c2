-- ===== src/Crates.antt =====
-- The crates that the library calls, as parameters: records of their operations, and records of
-- the behaviour that they document.
pub mod Random
pub mod Coding
pub mod Kdf
pub mod Sealing
pub mod Curve
pub mod Kem
pub mod Srp
use Random.{Rand}
use Coding.{Codec, Blake3, Zeroize}
use Kdf.{Argon2, Hkdf}
use Sealing.{Aead}
use Curve.{Ed25519, X25519}
use Kem.{MlKem}
use Srp.{SrpClient}

pub record Crates : Type 1 where
  pub rand : Rand
  pub base64 : Codec
  pub hex : Codec
  pub blake3 : Blake3
  pub zeroize : Zeroize
  pub argon2 : Argon2
  pub hkdf : Hkdf
  pub aes : Aead
  pub xchacha : Aead
  pub ed25519 : Ed25519 rand.Rng
  pub x25519 : X25519 rand.Rng
  pub mlkem : MlKem
  pub srp : SrpClient

-- The generator's state.
abbrev pub Rng : Crates → Type 0
Rng c = c.rand.Rng
