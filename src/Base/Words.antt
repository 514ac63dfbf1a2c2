-- ===== src/Base/Words.antt =====
-- Big-endian encodings of machine words.
use mathlib.Core.List.{[], ◌∷◌}
use mathlib.Core.Path.{◌≡◌, sym, ap, ◌∙◌}
use Prim.Native.Nat.{ℕ, ◌+◌, ◌*◌, ◌/◌, ◌^◌, ◌<◌}
use native.Mathlib.Omega.{arith}
use evnx_crypto.Base.Bytes.{Bytes, to_byte}

-- `u16::to_be_bytes`
abbrev pub u16_be : ℕ → Bytes
u16_be n = to_byte (n / 256) ∷ to_byte n ∷ []

-- `u32::to_be_bytes`
abbrev pub u32_be : ℕ → Bytes
u32_be n = to_byte (n / 2 ^ 24) ∷ to_byte (n / 2 ^ 16) ∷ to_byte (n / 2 ^ 8) ∷ to_byte n ∷ []

-- The number that bytes stand for, most significant first.
abbrev of_be_from : ℕ → Bytes → ℕ
of_be_from acc [] = acc
of_be_from acc (b ∷ bs) = of_be_from (acc * 256 + b.0) bs

abbrev of_be : Bytes → ℕ
of_be = of_be_from 0

of_be-u32_be : (n : ℕ) → n < 2 ^ 32 → of_be (u32_be n) ≡ n
of_be-u32_be n h = omega arith

pub u32_be-injective : (m n : ℕ) → m < 2 ^ 32 → n < 2 ^ 32 → u32_be m ≡ u32_be n → m ≡ n
u32_be-injective m n p q e = sym (of_be-u32_be m p) ∙ ap of_be e ∙ of_be-u32_be n q
