-- ===== src/Grid/Bresenham.antt =====
-- The error of Bresenham's loop, and why it ends. The longer of the two distances is `major`, the other
-- `minor`; the loop has made `a` steps along the one and `b` along the other, and the error is `u - v`,
-- with the sign that favours steps along the minor axis where it is low.
use native.Mathlib.Nat.{mul-le-mul_right, mul_comm}
use rises.Base.{ℕ, ◌+◌, ◌*◌, ◌≤◌, ◌<◌, ◌≡◌, Bool-cases, inl, inr, ltb, arith}

pub record Balanced (major minor a b u v : ℕ) : Type 0 where
  pub sums : u + minor + a * minor ≡ v + major + b * major
  pub above : 2 * v < 2 * u + minor
  pub below : 2 * u + 2 * minor < 2 * v + 3 * major

suc_times : (a m : ℕ) → (a + 1) * m ≡ a * m + m
suc_times a m = grind arith

-- At the start the error is the difference of the distances.
pub start-Balanced :
    (major minor u v : ℕ)
    → 0 < major
    → minor ≤ major
    → u + minor ≡ v + major
    → Balanced major minor 0 0 u v
start-Balanced major minor u v positive shorter e = record {
  sums = omega (arith, e);
  above = omega (arith, e);
  below = omega (arith, e);
}

pub major-Balanced :
    {major minor a b u v : ℕ} (u' v' : ℕ)
    → minor ≤ major
    → 2 * v + major ≤ 2 * u
    → u' + v + minor ≡ v' + u
    → Balanced major minor a b u v
    → Balanced major minor (a + 1) b u' v'
major-Balanced {major} {minor} {a} u' v' shorter high e h =
    let s = h.sums in
    let p = h.below in
    let q = h.above in
    record { sums = omega (arith, suc_times a minor); above = omega arith; below = omega arith }

pub both-Balanced :
    {major minor a b u v : ℕ} (u' v' : ℕ)
    → minor ≤ major
    → 2 * u < 2 * v + major
    → u' + v + minor ≡ v' + u + major
    → Balanced major minor a b u v
    → Balanced major minor (a + 1) (b + 1) u' v'
both-Balanced {major} {minor} {a} {b} u' v' shorter low e h =
    let s = h.sums in
    let p = h.below in
    let q = h.above in
    record {
      sums = omega (arith, suc_times a minor, suc_times b major);
      above = omega arith;
      below = omega arith;
    }

not_behind : {major minor b u v : ℕ} → Balanced major minor major b u v → minor ≤ b
not_behind {major} {minor} {b} h =
    let s = h.sums in
    let p = h.above in
    elim (Bool-cases (ltb b minor)) [
      | inl behind ↦
          let less : (b + 1) * major ≤ minor * major =
            let one_more : b + 1 ≤ minor = ground arith in mul-le-mul_right major one_more in
          absurd (omega (arith, suc_times b major, mul_comm major minor))
      | inr there ↦ ground arith
    ]

not_ahead : {major minor b u v : ℕ} → Balanced major minor major b u v → b ≤ minor
not_ahead {major} {minor} {b} h =
    let s = h.sums in
    let p = h.below in
    elim (Bool-cases (ltb minor b)) [
      | inl ahead ↦
          let less : (minor + 1) * major ≤ b * major =
            let one_more : minor + 1 ≤ b = ground arith in mul-le-mul_right major one_more in
          absurd (omega (arith, suc_times minor major, mul_comm major minor))
      | inr there ↦ ground arith
    ]

-- With all steps along the major axis made, those along the minor one are made too.
pub end-Balanced : {major minor b u v : ℕ} → Balanced major minor major b u v → b ≡ minor
end-Balanced h = let p = not_behind h in let q = not_ahead h in omega arith
