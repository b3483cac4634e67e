-- ===== src/Base/Bits.antt =====
-- The lowest binary digit of `bit_or` and `bit_and`.
use Prim.Native.Nat.{
  ℕ, zero, suc, ◌+◌, ◌*◌, ◌/◌, ◌%◌, ◌≤◌, min, max, bit_and, bit_or, digits, bit_and-bitwise,
  bit_or-bitwise,
}
use mathlib.Core.Path.{◌≡◌, refl}
use native.Mathlib.Omega.{arith}

module _ (rest : ℕ → ℕ) (digit : ℕ → ℕ → ℕ) where
  -- Any number of rounds from the first number on gives the same.
  rounds_agree : (n m a b : ℕ) → a ≤ n → a ≤ m → digits rest digit n a b ≡ digits rest digit m a b
  rounds_agree zero zero a b p q = refl
  rounds_agree zero (suc m) zero b p q = refl
  rounds_agree zero (suc m) (suc a) b p q = absurd (omega arith)
  rounds_agree (suc n) zero zero b p q = refl
  rounds_agree (suc n) zero (suc a) b p q = absurd (omega arith)
  rounds_agree (suc n) (suc m) zero b p q = refl
  rounds_agree (suc n) (suc m) (suc a) b p q =
      rw (rounds_agree n m (suc a / 2) (b / 2) (omega arith) (omega arith)) refl

  split_digits :
      ((b : ℕ) → rest b ≡ rest (b / 2) * 2 + digit 0 (b % 2))
      → (a b : ℕ)
      → digits rest digit a a b
        ≡ digits rest digit (a / 2) (a / 2) (b / 2) * 2 + digit (a % 2) (b % 2)
  split_digits h zero b = h b
  split_digits h (suc a) b =
      rw (rounds_agree a (suc a / 2) (suc a / 2) (b / 2) (omega arith) (omega arith)) refl

pub bit_or_halves : (a b : ℕ) → bit_or a b ≡ bit_or (a / 2) (b / 2) * 2 + max (a % 2) (b % 2)
bit_or_halves a b =
    rw (bit_or-bitwise a b, bit_or-bitwise (a / 2) (b / 2))
      (split_digits (λ b. b) max (λ b. omega arith) a b)

pub bit_and_halves : (a b : ℕ) → bit_and a b ≡ bit_and (a / 2) (b / 2) * 2 + min (a % 2) (b % 2)
bit_and_halves a b =
    rw (bit_and-bitwise a b, bit_and-bitwise (a / 2) (b / 2))
      (split_digits (λ b. zero) min (λ b. omega arith) a b)
