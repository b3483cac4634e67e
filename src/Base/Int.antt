-- ===== src/Base/Int.antt =====
-- Signed integers over the native numbers, for `int` values. `negsuc n` is -(n + 1).
use Prim.Native.Nat.{ℕ, suc, ◌+◌, ◌-◌, ◌%◌, ◌<◌, ◌≤◌}
use mathlib.Core.Path.{◌≡◌}
use mathlib.Core.Logic.{◌↔◌}
use mathlib.Core.Bool.{Bool, true}
use native.Mathlib.Omega.{arith}
use rises.Base.Tests.{ltb, leb, ◌==◌, if◌then◌else◌}

pub data ℤ : Type 0 where
  pos : ℕ → ℤ
  negsuc : ℕ → ℤ

abbrev pub pos_part : ℤ → ℕ
pos_part (pos n) = n
pos_part (negsuc n) = 0

abbrev pub neg_part : ℤ → ℕ
neg_part (pos n) = 0
neg_part (negsuc n) = suc n

abbrev pub ltb_ℤ : ℤ → ℤ → Bool
ltb_ℤ a b = ltb (pos_part a + neg_part b) (pos_part b + neg_part a)

abbrev pub leb_ℤ : ℤ → ℤ → Bool
leb_ℤ a b = leb (pos_part a + neg_part b) (pos_part b + neg_part a)

-- `static_cast<int>` of a `uint32_t`.
abbrev pub int32 : ℕ → ℤ
int32 n = if ltb n 2147483648 then pos n else negsuc (4294967296 - n - 1)

abbrev pub eq_ℤ : ℤ → ℤ → Bool
eq_ℤ a b = pos_part a + neg_part b == pos_part b + neg_part a

pub eq_ℤ_iff : (a b : ℤ) → (eq_ℤ a b ≡ true) ↔ (a ≡ b)
eq_ℤ_iff (pos m) (pos n) = ground arith
eq_ℤ_iff (pos m) (negsuc n) = ground arith
eq_ℤ_iff (negsuc m) (pos n) = ground arith
eq_ℤ_iff (negsuc m) (negsuc n) = ground arith

-- a - b, as an integer.
abbrev pub sub_ℕ : ℕ → ℕ → ℤ
sub_ℕ a b = if leb b a then pos (a - b) else negsuc (b - a - 1)

unfoldable pub suc_ℤ : ℤ → ℤ
suc_ℤ a = sub_ℕ (suc (pos_part a)) (neg_part a)

unfoldable pub pred_ℤ : ℤ → ℤ
pred_ℤ a = sub_ℕ (pos_part a) (suc (neg_part a))

abbrev pub min_ℤ : ℤ → ℤ → ℤ
min_ℤ a b = if ltb_ℤ b a then b else a

abbrev pub max_ℤ : ℤ → ℤ → ℤ
max_ℤ a b = if ltb_ℤ a b then b else a

pub suc_ℤ_parts : (a : ℤ) → pos_part (suc_ℤ a) + neg_part a ≡ neg_part (suc_ℤ a) + suc (pos_part a)
unfolding suc_ℤ
suc_ℤ_parts a = ground arith

pub pred_ℤ_parts :
    (a : ℤ) → pos_part (pred_ℤ a) + suc (neg_part a) ≡ neg_part (pred_ℤ a) + pos_part a
unfolding pred_ℤ
pred_ℤ_parts a = ground arith

-- A sum, a difference and a product of `int` values: what is out of range wraps around.
unfoldable pub to_int : ℤ → ℤ
to_int a = int32 ((pos_part a + (4294967296 - neg_part a % 4294967296)) % 4294967296)

pub to_int_fits : (a : ℤ) → pos_part a < 2147483648 → neg_part a ≤ 2147483648 → to_int a ≡ a
unfolding to_int
to_int_fits (pos n) h k = ground arith
to_int_fits (negsuc n) h k = ground arith
