-- ===== src/Latency/Rounding.antt =====
-- The rounding of the buffer size gives the next power of two, up to 2 ^ 32.
use Prim.Native.Nat.{bit_and}
use native.Mathlib.Nat.{pow-suc, pow-le-pow_right}
use rises.Base.{
  ℕ, zero, suc, ◌+◌, ◌-◌, ◌*◌, ◌/◌, ◌%◌, ◌^◌, ◌≤◌, ◌<◌, ◌≡◌, refl, max, if◌then◌else◌, ltb, leb,
  ◌==◌, Bool-cases, inl, inr, arith,
}
use rises.Base.Bits.{bit_and_halves}
use rises.Latency.Create.{round_up, create_size}
use rises.Latency.Spread.{low, spread, spread_halves, five_smears, ends_clear-small}

-- The next power of two above a positive number of at most j digits.
abbrev NextPower : ℕ → ℕ → ℕ → Type 0
NextPower j v top = (k : ℕ) × (top ≡ 2 ^ k) × (v < 2 ^ k) × (2 ^ k ≤ 2 * v) × (k ≤ j)

spread-NextPower :
    (m j n v : ℕ) → v ≤ n → v < 2 ^ m → v < 2 ^ j → 0 < v → NextPower j v (spread m v + 1)
spread-NextPower m j zero v h small fits p = absurd (omega arith)
spread-NextPower m zero (suc n) v h small fits p = absurd (omega arith)
spread-NextPower m (suc j) (suc n) v h small fits p =
    let ends : low m v ≡ 1 = rw (ends_clear-small m v small p) refl in
    rw (spread_halves m v, ends)
      (elim (Bool-cases (v == 1)) [
        | inl one ↦
            let last : v ≡ 1 = ground arith in
            (1, rw last refl, omega arith, omega arith, omega arith)
        | inr more ↦
            let (k, e, above, below, bound) =
              spread-NextPower m j n (v / 2) (omega arith) (omega (arith, small))
                (omega (arith, pow-suc 2 j)) (ground arith) in
            (
              suc k,
              omega (arith, pow-suc 2 k),
              omega (arith, pow-suc 2 k),
              omega (arith, pow-suc 2 k),
              omega arith,
            )
      ])

bit_and_self : (n a : ℕ) → a ≤ n → bit_and a a ≡ a
bit_and_self zero a h = let none_left : a ≡ 0 = omega arith in rw none_left refl
bit_and_self (suc n) a h =
    rw (bit_and_halves a a, bit_and_self n (a / 2) (omega arith)) (ground arith)

-- A positive number that shares no digit with the one below it is a power of two.
no_shared_digit :
    (j n a : ℕ)
    → a ≤ n
    → 0 < a
    → a < 2 ^ j
    → bit_and a (a - 1) ≡ 0
    → (k : ℕ) × (a ≡ 2 ^ k) × (k < j)
no_shared_digit j zero a h p fits e = absurd (omega arith)
no_shared_digit zero (suc n) a h p fits e = absurd (omega arith)
no_shared_digit (suc j) (suc n) a h p fits e = elim (Bool-cases (a % 2 == 0)) [
  | inl even ↦
      let halved : (a - 1) / 2 ≡ a / 2 - 1 = ground arith in
      let split = bit_and_halves a (a - 1) in
      let rest : bit_and (a / 2) (a / 2 - 1) ≡ 0 = let moved = rw halved at split in omega arith in
      let (k, e2, bound) =
        no_shared_digit j n (a / 2) (omega arith) (ground arith) (omega (arith, pow-suc 2 j))
          rest in
      (
        suc k,
        (let twofold : a ≡ a / 2 * 2 = ground arith in omega (arith, pow-suc 2 k)),
        omega arith,
      )
  | inr odd ↦
      let halved : (a - 1) / 2 ≡ a / 2 = ground arith in
      let split = bit_and_halves a (a - 1) in
      let none_above : a / 2 ≡ 0 =
        let moved = rw halved at split in
        omega (arith, bit_and_self (a / 2) (a / 2) (omega arith)) in
      (0, ground arith, omega arith)
]

abbrev IsCapacityFor : ℕ → ℕ → Type 0
IsCapacityFor size capacity =
    (k : ℕ) × (capacity ≡ 2 ^ k) × (size ≤ 2 ^ k) × (2 ^ k < 2 * size) × (6 ≤ k) × (k ≤ 32)

at_least_six : (k size : ℕ) → 64 ≤ size → size ≤ 2 ^ k → 6 ≤ k
at_least_six k size low fits = elim (Bool-cases (leb 6 k)) [
  | inl large ↦ ground arith
  | inr small ↦
      let few : k ≤ 5 = ground arith in
      let bound = pow-le-pow_right {n = 2} (omega arith) few in absurd (omega arith)
]

rounded : (size : ℕ) → 64 ≤ size → size ≤ 4294967296 → IsCapacityFor size (round_up size)
unfolding round_up
rounded size low high =
    let (k, e, above, below, bound) =
      spread-NextPower 32 32 (size - 1) (size - 1) (omega arith) (omega arith) (omega arith)
        (omega arith) in
    rw (five_smears (size - 1))
      (k, omega (arith, e), omega arith, omega arith, at_least_six k size low (omega arith), bound)

kept_size :
    (size : ℕ)
    → 64 ≤ size
    → size ≤ 4294967296
    → bit_and size (size - 1) ≡ 0
    → IsCapacityFor size size
kept_size size low high e =
    let (k, power, bound) =
      no_shared_digit 33 size size (omega arith) (omega arith) (omega arith) e in
    (k, power, omega arith, omega arith, at_least_six k size low (omega arith), omega arith)

-- For a requested size of up to 2 ^ 32 the buffer gets a power of two: the smallest that is at least the
-- requested size, and at least 64.
pub create_size-NextPower :
    (buffer_size : ℕ)
    → buffer_size ≤ 4294967296
    → IsCapacityFor (max buffer_size 64) (create_size buffer_size)
unfolding create_size
create_size-NextPower buffer_size high =
    let size : ℕ = max buffer_size 64 in
    let same : (if ltb buffer_size 64 then 64 else buffer_size) ≡ size = ground arith in
    rw same (elim (Bool-cases (bit_and size (size - 1) == 0)) [
      | inl alone ↦ rw alone (kept_size size (omega arith) (omega arith) (ground arith))
      | inr shared ↦ rw shared (rounded size (omega arith) (omega arith))
    ])
