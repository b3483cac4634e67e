-- ===== src/Base/Words.antt =====
-- Unsigned words as native numbers: wrap-around by `%`, and masks of ones.
use Prim.Native.Nat.{
  ℕ, zero, suc, ◌+◌, ◌-◌, ◌*◌, ◌/◌, ◌%◌, ◌^◌, ◌≤◌, ◌<◌, min, bit_and, digits, bit_and-bitwise,
}
use mathlib.Core.Path.{◌≡◌, ◌∙◌}
use native.Mathlib.Nat.{pow-suc, div-add-mod}
use native.Mathlib.Omega.{arith}

-- The number of values of an unsigned 64-bit word.
abbrev pub u64_mod : ℕ
u64_mod = 2 ^ 64

-- Truncation to `uint8_t`, `uint64_t`.
abbrev pub u8 : ℕ → ℕ
u8 n = n % 256

abbrev pub u64 : ℕ → ℕ
u64 n = n % 18446744073709551616

-- `a - b` on `uint64_t`, for `a` and `b` in range.
abbrev pub sub_u64 : ℕ → ℕ → ℕ
sub_u64 a b = (a + 18446744073709551616 - b) % 18446744073709551616

power_pos : (k : ℕ) → 0 < 2 ^ k
power_pos zero = omega arith
power_pos (suc k) = omega (arith, pow-suc 2 k, power_pos k)

-- The last binary digit of a remainder by twice a number, and the rest.
mod-double : (a m : ℕ) → 0 < m → a % (m * 2) ≡ (a / 2) % m * 2 + a % 2
mod-double a m h = grind (arith, div-add-mod (a / 2) m)

-- The digits that `bit_and` keeps under k ones, with a count of rounds that is large enough.
kept_digits :
    (rounds k a : ℕ) → a ≤ rounds → digits (λ rest. zero) min rounds a (2 ^ k - 1) ≡ a % 2 ^ k
kept_digits zero k a h = let none_left : a ≡ zero = omega arith in grind (arith, power_pos k)
kept_digits (suc rounds) k zero h = grind (arith, power_pos k)
kept_digits (suc rounds) zero (suc a) h =
    omega (arith, kept_digits rounds zero (suc a / 2) (omega arith))
kept_digits (suc rounds) (suc k) (suc a) h =
    let shifted : (2 ^ suc k - 1) / 2 ≡ 2 ^ k - 1 = omega (arith, pow-suc 2 k, power_pos k) in
    let last : (2 ^ suc k - 1) % 2 ≡ 1 = omega (arith, pow-suc 2 k, power_pos k) in
    rw
      (
        shifted,
        last,
        kept_digits rounds k (suc a / 2) (omega arith),
        pow-suc 2 k,
        mod-double (suc a) (2 ^ k) (power_pos k),
      )
      (omega arith)

-- A mask of k ones keeps the remainder by 2 ^ k.
pub bit_and-mask : (k a : ℕ) → bit_and a (2 ^ k - 1) ≡ a % 2 ^ k
bit_and-mask k a = bit_and-bitwise a (2 ^ k - 1) ∙ kept_digits a k a (omega arith)
