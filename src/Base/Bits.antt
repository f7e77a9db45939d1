-- ===== src/Base/Bits.antt =====
-- Facts about `bit_and` at variables.
use Prim.Native.Nat.{ℕ, zero, suc, ◌/◌, min, bit_and, digits, bit_and-bitwise}
use mathlib.Core.Path.{◌≡◌, refl, ◌∙◌}
use native.Mathlib.Omega.{arith}

-- Both arguments are halved until the first is 0.
and_no_digits : (n a : ℕ) → digits (λ b. zero) min n a 0 ≡ 0
and_no_digits zero a = refl
and_no_digits (suc n) zero = refl
and_no_digits (suc n) (suc a) = omega (arith, and_no_digits n (suc a / 2))

pub bit_and-zero : (a : ℕ) → bit_and a 0 ≡ 0
bit_and-zero a = (λ j. bit_and-bitwise a 0 j) ∙ and_no_digits a a
