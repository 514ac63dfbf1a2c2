-- ===== src/Base/Decimal.antt =====
-- A number as `format!` prints it.
use Prim.Native.String.{String, ◌++◌ as ◌<>◌}
use Prim.Native.Nat.{ℕ, zero, suc, ◌+◌, ◌*◌, ◌/◌, ◌%◌, ◌^◌, ◌<◌}
use native.Mathlib.Numerals.{unary_clauses}
use mathlib.Core.Path.{◌≡◌}
use native.Mathlib.Omega.{arith}
use evnx_crypto.Base.Tests.{ltb, if◌then◌else◌}

digit : ℕ → String
digit zero = "0"
digit (suc zero) = "1"
digit (suc (suc zero)) = "2"
digit (suc (suc (suc zero))) = "3"
digit (suc (suc (suc (suc zero)))) = "4"
digit (suc (suc (suc (suc (suc zero))))) = "5"
digit (suc (suc (suc (suc (suc (suc zero)))))) = "6"
digit (suc (suc (suc (suc (suc (suc (suc zero))))))) = "7"
digit (suc (suc (suc (suc (suc (suc (suc (suc zero)))))))) = "8"
digit _ = "9"

-- The digits of a number in front of a text; the fuel bounds their count.
digits_onto : ℕ → ℕ → String → String
digits_onto zero n rest = rest
digits_onto (suc fuel) n rest =
    let more = digits_onto fuel (n / 10) (digit (n % 10) <> rest) in
    if ltb n 10 then digit n <> rest else more

-- Fuel for the digits that a number has is enough: more of it changes nothing.
digits_onto-enough :
    (fuel more n : ℕ) (rest : String)
    → n < 10 ^ suc fuel
    → digits_onto (suc (more + fuel)) n rest ≡ digits_onto (suc fuel) n rest
unfolding digits_onto
digits_onto-enough zero more n rest h = ground arith
digits_onto-enough (suc fuel) more n rest h =
    let power : 10 ^ suc (suc fuel) ≡ 10 * 10 ^ suc fuel = simp unary_clauses (omega arith) in
    let more_suc : more + suc fuel ≡ suc (more + fuel) = omega arith in
    let shorter = digits_onto-enough fuel more (n / 10) (digit (n % 10) <> rest) (omega arith) in
    rw (more_suc, shorter)

-- A `usize` is below 2 ^ 64, so it has at most 20 digits.
unfoldable pub decimal : ℕ → String
unfolding digits_onto digit
decimal n = digits_onto 20 n ""

-- For a `usize`, any larger fuel gives the same text.
decimal-enough : (more n : ℕ) → n < 2 ^ 64 → digits_onto (suc (more + 19)) n "" ≡ decimal n
unfolding decimal
decimal-enough more n h = digits_onto-enough 19 more n "" (omega arith)
