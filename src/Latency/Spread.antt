-- ===== src/Latency/Spread.antt =====
-- What the five lines of the rounding do to the binary digits of a number.
use Prim.Native.Nat.{bit_or}
use native.Mathlib.Nat.{
  pow-suc, pow-succ', div-div-eq-div-mul, mul_comm, zero-div, suc-add, zero-add, div-one,
}
use rises.Base.{
  ℕ, zero, suc, ◌+◌, ◌*◌, ◌/◌, ◌%◌, ◌^◌, ◌≤◌, ◌<◌, ◌≡◌, refl, sym, ap, ◌∙◌, Bool, true, false, ◌&&◌,
  if◌then◌else◌, ◌==◌, Bool-cases, inl, inr, arith,
}
use rises.Base.Bits.{bit_or_halves}
use rises.Latency.Create.{smear}

-- The lowest m digits are zero.
abbrev pub ends_clear : ℕ → ℕ → Bool
ends_clear zero v = true
ends_clear (suc m) v = if v % 2 == 0 then ends_clear m (v / 2) else false

abbrev pub low : ℕ → ℕ → ℕ
low m v = if ends_clear m v then 0 else 1

-- Each digit of v is joined with the m - 1 digits above it; n rounds.
abbrev pub spread_in : ℕ → ℕ → ℕ → ℕ
spread_in m zero v = 0
spread_in m (suc n) v = spread_in m n (v / 2) * 2 + low m v

abbrev pub spread : ℕ → ℕ → ℕ
spread m v = spread_in m v v

half_shift : (s v : ℕ) → (v / 2 ^ s) / 2 ≡ (v / 2) / 2 ^ s
half_shift s v =
    div-div-eq-div-mul v (2 ^ s) 2
    ∙ ap (λ (t : ℕ). v / t) (mul_comm (2 ^ s) 2)
    ∙ sym (div-div-eq-div-mul v 2 (2 ^ s))

shift_suc : (s v : ℕ) → (v / 2) / 2 ^ s ≡ v / 2 ^ suc s
shift_suc s v = div-div-eq-div-mul v 2 (2 ^ s) ∙ ap (λ (t : ℕ). v / t) (sym (pow-succ' 2 s))

ends_clear_zero : (m : ℕ) → ends_clear m 0 ≡ true
ends_clear_zero zero = refl
ends_clear_zero (suc m) = ends_clear_zero m

spread_rounds : (m n k v : ℕ) → v ≤ n → v ≤ k → spread_in m n v ≡ spread_in m k v
spread_rounds m zero zero v p q = refl
spread_rounds m zero (suc k) v p q =
    let none_left : v ≡ 0 = omega arith in
    let rest = spread_rounds m zero k (v / 2) (omega arith) (omega arith) in
    rw none_left (ground (arith, ends_clear_zero m, spread_rounds m zero k 0))
spread_rounds m (suc n) zero v p q =
    let none_left : v ≡ 0 = omega arith in
    rw none_left (ground (arith, ends_clear_zero m, spread_rounds m n zero 0))
spread_rounds m (suc n) (suc k) v p q =
    rw (spread_rounds m n k (v / 2) (omega arith) (omega arith)) refl

pub spread_halves : (m v : ℕ) → spread m v ≡ spread m (v / 2) * 2 + low m v
spread_halves m zero = rw (ends_clear_zero m) refl
spread_halves m (suc v) =
    rw (spread_rounds m v (suc v / 2) (suc v / 2) (omega arith) (omega arith)) refl

spread-half : (m v : ℕ) → spread m v / 2 ≡ spread m (v / 2)
spread-half m v = ground (arith, spread_halves m v)

-- A shift of the spread digits.
spread-shift : (m s v : ℕ) → spread m v / 2 ^ s ≡ spread m (v / 2 ^ s)
spread-shift m zero v = rw (div-one v) (div-one (spread m v))
spread-shift m (suc s) v =
    sym (shift_suc s (spread m v))
    ∙ ap (λ (t : ℕ). t / 2 ^ s) (spread-half m v)
    ∙ spread-shift m s (v / 2)
    ∙ ap (spread m) (shift_suc s v)

ends_clear-add : (m k v : ℕ) → ends_clear (m + k) v ≡ ends_clear m v && ends_clear k (v / 2 ^ m)
ends_clear-add zero k v = rw (zero-add, div-one v) refl
ends_clear-add (suc m) k v =
    rw (suc-add, sym (shift_suc m v))
      (elim (Bool-cases (v % 2 == 0)) [
        | inl even ↦ rw even (ends_clear-add m k (v / 2))
        | inr odd ↦ rw odd refl
      ])

-- Digits spread over m places, joined with those m places above, are spread over 2 m places.
join_spread : (m n v : ℕ) → v ≤ n → bit_or (spread m v) (spread m v / 2 ^ m) ≡ spread (m + m) v
join_spread m zero v h =
    let none_left : v ≡ 0 = omega arith in rw (none_left, zero-div (2 ^ m)) refl
join_spread m (suc n) v h =
    let rest = join_spread m n (v / 2) (omega arith) in
    rw
      (
        bit_or_halves (spread m v) (spread m v / 2 ^ m),
        half_shift m (spread m v),
        spread-half m v,
        rest,
        spread-shift m m v,
        spread_halves (m + m) v,
      )
      (ground (arith, spread_halves m v, spread_halves m (v / 2 ^ m), ends_clear-add m m v))

spread_one : (n v : ℕ) → v ≤ n → spread 1 v ≡ v
spread_one zero v h = let none_left : v ≡ 0 = omega arith in rw none_left refl
spread_one (suc n) v h = rw (spread_halves 1 v, spread_one n (v / 2) (omega arith)) (ground arith)

smear-spread : (m v : ℕ) → smear m (spread m v) ≡ spread (m + m) v
smear-spread m v = join_spread m v v (omega arith)

-- The five lines spread each digit over the 32 places below it.
pub five_smears : (v : ℕ) → smear 16 (smear 8 (smear 4 (smear 2 (smear 1 v)))) ≡ spread 32 v
five_smears v =
    let start : smear 1 v ≡ spread 2 v =
      ap (smear 1) (sym (spread_one v v (omega arith))) ∙ smear-spread 1 v in
    rw (start, smear-spread 2 v, smear-spread 4 v, smear-spread 8 v) (smear-spread 16 v)

pub ends_clear-small : (m v : ℕ) → v < 2 ^ m → 0 < v → ends_clear m v ≡ false
ends_clear-small zero v h p = absurd (omega arith)
ends_clear-small (suc m) v h p = elim (Bool-cases (v % 2 == 0)) [
  | inl even ↦ rw even (ends_clear-small m (v / 2) (omega (arith, pow-suc 2 m)) (ground arith))
  | inr odd ↦ rw odd refl
]
