-- ===== src/Prelude/Bits/Step.antt =====
-- One binary digit of `bit_and` and `bit_or`: the native operations mean a recursion on digits.
use Prim.Native.Nat.{
  ℕ, zero, suc, ◌+◌, ◌*◌, ◌/◌, ◌%◌, ◌≤◌, min, max, digits, bitwise, bit_and, bit_or,
  bit_and-bitwise, bit_or-bitwise,
}
use native.Mathlib.Nat.{le_refl}
use native.Mathlib.Omega.{arith}
use mathlib.Core.Path.{◌≡◌, refl}

-- More fuel than the first word needs changes nothing.
module _ (rest : ℕ → ℕ) (digit : ℕ → ℕ → ℕ) where
  digits_fuel : (m n x y : ℕ) → x ≤ m → x ≤ n → digits rest digit m x y ≡ digits rest digit n x y
  digits_fuel zero zero x y p q = refl
  digits_fuel (suc m) zero zero y p q = refl
  digits_fuel (suc m) zero (suc x) y p q = absurd (omega arith)
  digits_fuel zero (suc n) zero y p q = refl
  digits_fuel zero (suc n) (suc x) y p q = absurd (omega arith)
  digits_fuel (suc m) (suc n) zero y p q = refl
  digits_fuel (suc m) (suc n) (suc x) y p q =
      rw (digits_fuel m n (suc x / 2) (y / 2) (omega arith) (omega arith))

  bitwise_digit :
      (x y : ℕ)
      → bitwise rest digit (suc x) y
        ≡ bitwise rest digit (suc x / 2) (y / 2) * 2 + digit (suc x % 2) (y % 2)
  bitwise_digit x y =
      omega (arith, digits_fuel x (suc x / 2) (suc x / 2) (y / 2) (omega arith) (le_refl _))

pub bit_and_step : (x y : ℕ) → bit_and x y ≡ bit_and (x / 2) (y / 2) * 2 + min (x % 2) (y % 2)
bit_and_step zero y = simp bit_and-bitwise (omega arith)
bit_and_step (suc x) y = simp bit_and-bitwise (bitwise_digit (λ _. 0) min x y)

pub bit_or_step : (x y : ℕ) → bit_or x y ≡ bit_or (x / 2) (y / 2) * 2 + max (x % 2) (y % 2)
bit_or_step zero y = simp bit_or-bitwise (omega arith)
bit_or_step (suc x) y = simp bit_or-bitwise (bitwise_digit (λ y. y) max x y)
