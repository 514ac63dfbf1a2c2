-- ===== src/Base/Bytes.antt =====
-- Bytes, byte strings and texts. A `&str` is the sequence of its UTF-8 bytes, as in Rust.
use Prim.Native.Nat.{ℕ, zero, suc, ◌%◌, ◌<◌}
use Prim.Native.Char.{code}
use Prim.Native.String.{String}
use mathlib.Core.Path.{◌≡◌, refl}
use mathlib.Core.Logic.{◌≢◌, ◌⊎◌, inl, inr}
use mathlib.Core.HLevel.{Σ_prop_path}
use mathlib.Core.List.{List, [], ◌∷◌}
use mathlib.Core.Bool.{Bool, true, false, ◌&&◌}
use native.Mathlib.Bridge.{le_prop}
use native.Mathlib.Omega.{arith}
use evnx_crypto.Base.Tests.{◌==◌}
use evnx_crypto.Base.Lists.{replicate}

-- `u8`
abbrev pub Byte : Type 0
Byte = (value : ℕ) × (value < 256)

abbrev pub Bytes : Type 0
Bytes = List Byte

abbrev pub Text : Type 0
Text = Bytes

pub mod-lt_256 : (n : ℕ) → n % 256 < 256
mod-lt_256 n = omega arith

-- The low eight bits of a number.
abbrev pub to_byte : ℕ → Byte
to_byte n = (n % 256, mod-lt_256 n)

-- Bytes are equal when their values are.
pub Byte-eq : (a b : Byte) → a.0 ≡ b.0 → a ≡ b
Byte-eq a b h = Σ_prop_path (λ n. le_prop) h

-- An ASCII literal `b"…"`.
abbrev pub ascii : String → Bytes
ascii String.[] = []
ascii (String.◌∷◌ c s) = to_byte (code c) ∷ ascii s

-- `[0u8; n]`
abbrev pub zeros : ℕ → Bytes
zeros n = replicate n (to_byte 0)

-- `bytes.iter().all(|&b| b == 0)`
abbrev pub all_zero : Bytes → Bool
all_zero [] = true
all_zero (b ∷ ys) = (b.0 == 0) && all_zero ys

-- `==` on byte slices.
abbrev pub bytes_eq : Bytes → Bytes → Bool
bytes_eq [] [] = true
bytes_eq [] (b ∷ ys) = false
bytes_eq (a ∷ xs) [] = false
bytes_eq (a ∷ xs) (b ∷ ys) = (a.0 == b.0) && bytes_eq xs ys

pub bytes_eq→eq : (xs ys : Bytes) → bytes_eq xs ys ≡ true → xs ≡ ys
bytes_eq→eq [] [] h = refl
bytes_eq→eq [] (b ∷ ys) h = cc
bytes_eq→eq (a ∷ xs) [] h = cc
bytes_eq→eq (a ∷ xs) (b ∷ ys) h = cc (Byte-eq a b (ground arith), bytes_eq→eq xs ys (ground arith))

pub bytes_eq_refl : (xs : Bytes) → bytes_eq xs xs ≡ true
bytes_eq_refl [] = refl
bytes_eq_refl (a ∷ xs) = ground (arith, bytes_eq_refl xs)

bytes_eq_cases_of : (xs ys : Bytes) (b : Bool) → bytes_eq xs ys ≡ b → (xs ≡ ys) ⊎ (xs ≢ ys)
bytes_eq_cases_of xs ys true e = inl (bytes_eq→eq xs ys e)
bytes_eq_cases_of xs ys false e =
    inr (λ p. let same : bytes_eq ys ys ≡ false = rw p at e in cc (bytes_eq_refl ys))

pub bytes_eq_cases : (xs ys : Bytes) → (xs ≡ ys) ⊎ (xs ≢ ys)
bytes_eq_cases xs ys = bytes_eq_cases_of xs ys (bytes_eq xs ys) refl

pub all_zero-zeros : (n : ℕ) → all_zero (zeros n) ≡ true
all_zero-zeros zero = refl
all_zero-zeros (suc n) = all_zero-zeros n
