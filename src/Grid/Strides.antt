-- ===== src/Grid/Strides.antt =====
-- One round of the loop over a line's cells.

use rises.Base.{
  ℕ, ◌+◌, ◌*◌, ◌≤◌, ◌<◌, ◌≡◌, Bool, true, false, if◌then◌else◌, ltb, Bool-cases, inl, inr, arith,
}
use rises.Base.Int.{
  ℤ, pos, pos_part, neg_part, sub_ℕ, ltb_ℤ, eq_ℤ, suc_ℤ_parts, pred_ℤ_parts, negsuc, to_int_fits,
}
use rises.Grid.Lines.{Cursor, distance, towards, twice, lower, raise, advance}
use rises.Grid.Bresenham.{Balanced, major-Balanced, both-Balanced}

-- The value is n steps from one end towards the other.
abbrev pub Stepped : ℤ → ℤ → ℕ → ℤ → Type 0
Stepped from end n x =
    pos_part x + neg_part from + (if ltb_ℤ from end then 0 else n)
    ≡ neg_part x + pos_part from + (if ltb_ℤ from end then n else 0)

towards-Stepped :
    (from end : ℤ) (n : ℕ) (x : ℤ)
    → Stepped from end n x
    → Stepped from end (n + 1) (towards from end x)
towards-Stepped from end n x h = ground (arith, suc_ℤ_parts x, pred_ℤ_parts x)

pub under_way :
    (from end : ℤ) (n : ℕ) (x : ℤ)
    → Stepped from end n x
    → n < distance from end
    → eq_ℤ x end ≡ false
under_way from end n x h less = ground arith

pub arrived :
    (from end : ℤ) (n : ℕ) (x : ℤ) → Stepped from end n x → n ≡ distance from end → x ≡ end
arrived from end n x h e = ground arith

pub eq_ℤ_refl : (x : ℤ) → eq_ℤ x x ≡ true
eq_ℤ_refl x = ground arith

-- Distances below this keep the error, and twice the error, inside the range of `int`.
abbrev pub short : ℕ
short = 536870912

-- The bounds of the error, from those that the loop keeps.
wide_small :
    (e : ℤ) (major minor : ℕ)
    → 2 * neg_part e < 2 * pos_part e + minor
    → 2 * pos_part e + 2 * minor < 2 * neg_part e + 3 * major
    → minor ≤ major
    → major < short
    → (pos_part e < 2 * short) × (neg_part e < 2 * short)
wide_small (pos n) major minor h k le lt = (omega arith, omega arith)
wide_small (negsuc n) major minor h k le lt = (omega arith, omega arith)

tall_small :
    (e : ℤ) (major minor : ℕ)
    → 2 * pos_part e < 2 * neg_part e + minor
    → 2 * neg_part e + 2 * minor < 2 * pos_part e + 3 * major
    → minor ≤ major
    → major < short
    → (pos_part e < 2 * short) × (neg_part e < 2 * short)
tall_small (pos n) major minor h k le lt = (omega arith, omega arith)
tall_small (negsuc n) major minor h k le lt = (omega arith, omega arith)

twice-exact :
    (e : ℤ)
    → pos_part e < 2 * short
    → neg_part e < 2 * short
    → twice e ≡ sub_ℕ (2 * pos_part e) (2 * neg_part e)
unfolding twice
twice-exact e h k = to_int_fits _ (ground arith) (ground arith)

lower-exact :
    (e : ℤ) (n : ℕ)
    → pos_part e < 2 * short
    → neg_part e < 2 * short
    → n < short
    → lower e n ≡ sub_ℕ (pos_part e) (neg_part e + n)
unfolding lower
lower-exact e n h k m = to_int_fits _ (ground arith) (ground arith)

raise-exact :
    (e : ℤ) (n : ℕ)
    → pos_part e < 2 * short
    → neg_part e < 3 * short
    → n < short
    → raise e n ≡ sub_ℕ (pos_part e + n) (neg_part e)
unfolding raise
raise-exact e n h k m = to_int_fits _ (ground arith) (ground arith)

across_test :
    (e : ℤ) (n : ℕ)
    → pos_part e < 2 * short
    → neg_part e < 2 * short
    → ltb_ℤ (sub_ℕ 0 n) (twice e) ≡ ltb (2 * neg_part e) (2 * pos_part e + n)
across_test e n h k = rw (twice-exact e h k) (ground arith)

down_test :
    (e : ℤ) (n : ℕ)
    → pos_part e < 2 * short
    → neg_part e < 2 * short
    → ltb_ℤ (twice e) (pos n) ≡ ltb (2 * pos_part e) (2 * neg_part e + n)
down_test e n h k = rw (twice-exact e h k) (ground arith)

-- What the answer of a test says.
less_if : {b : Bool} {m n : ℕ} → b ≡ ltb m n → b ≡ true → m < n
less_if e h = ground arith

not_less_if : {b : Bool} {m n : ℕ} → b ≡ ltb m n → b ≡ false → n ≤ m
not_less_if e h = ground arith

is_less : {b : Bool} {m n : ℕ} → b ≡ ltb m n → m < n → b ≡ true
is_less e h = ground arith

lower_parts :
    (e : ℤ) (n : ℕ)
    → pos_part e < 2 * short
    → neg_part e < 2 * short
    → n < short
    → pos_part (lower e n) + neg_part e + n ≡ neg_part (lower e n) + pos_part e
lower_parts e n h k m = rw (lower-exact e n h k m) (ground arith)

raise_parts :
    (e : ℤ) (n : ℕ)
    → pos_part e < 2 * short
    → neg_part e < 3 * short
    → n < short
    → pos_part (raise e n) + neg_part e ≡ neg_part (raise e n) + pos_part e + n
raise_parts e n h k m = rw (raise-exact e n h k m) (ground arith)

lower_small :
    (e : ℤ) (n : ℕ)
    → pos_part e < 2 * short
    → neg_part e < 2 * short
    → n < short
    → (pos_part (lower e n) < 2 * short) × (neg_part (lower e n) < 3 * short)
lower_small e n h k m = rw (lower-exact e n h k m) (ground arith, ground arith)

module _ (gx1 gy1 gx2 gy2 : ℤ) where
  -- a steps across and b steps down, where there are no fewer columns than rows.
  pub record Wide (a b : ℕ) (c : Cursor) : Type 0 where
    pub across : Stepped gx1 gx2 a c.x
    pub down : Stepped gy1 gy2 b c.y
    pub balanced :
        Balanced (distance gx1 gx2) (distance gy1 gy2) a b (pos_part c.err) (neg_part c.err)

  pub advance-Wide :
      (a b : ℕ) (c : Cursor)
      → distance gy1 gy2 ≤ distance gx1 gx2
      → distance gx1 gx2 < short
      → Wide a b c
      → (b' : ℕ) × Wide (a + 1) b' (advance gx1 gy1 gx2 gy2 c)
  unfolding advance
  advance-Wide a b c wide room h =
      let dx = distance gx1 gx2 in
      let dy = distance gy1 gy2 in
      let above = h.balanced.above in
      let (few, low) = wide_small c.err dx dy above h.balanced.below wide room in
      let across_e = across_test c.err dy few low in
      let down_e = down_test c.err dx few low in
      let lowered = lower_parts c.err dy few low (omega arith) in
      let (few_after, low_after) = lower_small c.err dy few low (omega arith) in
      let raised = raise_parts (lower c.err dy) dx few_after low_after room in
      let goes : ltb_ℤ (sub_ℕ 0 dy) (twice c.err) ≡ true = is_less across_e (omega arith) in
      let stepped = towards-Stepped gx1 gx2 a c.x h.across in
      elim (Bool-cases (ltb_ℤ (twice c.err) (pos dx))) [
        | inl both ↦
            rw (goes, both)
              (
                b + 1,
                record {
                  across = stepped;
                  down = towards-Stepped gy1 gy2 b c.y h.down;
                  balanced =
                      both-Balanced _ _ wide (omega (arith, less_if down_e both))
                        (omega (arith, lowered, raised)) h.balanced;
                },
              )
        | inr one ↦
            rw (goes, one)
              (
                b,
                record {
                  across = stepped;
                  down = h.down;
                  balanced =
                      major-Balanced _ _ wide (omega (arith, not_less_if down_e one))
                        (omega (arith, lowered)) h.balanced;
                },
              )
      ]

  -- a steps down and b steps across, where there are no fewer rows than columns.
  pub record Tall (a b : ℕ) (c : Cursor) : Type 0 where
    pub down : Stepped gy1 gy2 a c.y
    pub across : Stepped gx1 gx2 b c.x
    pub balanced :
        Balanced (distance gy1 gy2) (distance gx1 gx2) a b (neg_part c.err) (pos_part c.err)

  pub advance-Tall :
      (a b : ℕ) (c : Cursor)
      → distance gx1 gx2 ≤ distance gy1 gy2
      → distance gy1 gy2 < short
      → Tall a b c
      → (b' : ℕ) × Tall (a + 1) b' (advance gx1 gy1 gx2 gy2 c)
  unfolding advance
  advance-Tall a b c tall room h =
      let dx = distance gx1 gx2 in
      let dy = distance gy1 gy2 in
      let above = h.balanced.above in
      let (few, low) = tall_small c.err dy dx above h.balanced.below tall room in
      let across_e = across_test c.err dy few low in
      let down_e = down_test c.err dx few low in
      let lowered = lower_parts c.err dy few low room in
      let (few_after, low_after) = lower_small c.err dy few low room in
      let raised = raise_parts (lower c.err dy) dx few_after low_after (omega arith) in
      let raised_alone = raise_parts c.err dx few (omega arith) (omega arith) in
      let goes : ltb_ℤ (twice c.err) (pos dx) ≡ true = is_less down_e (omega arith) in
      let stepped = towards-Stepped gy1 gy2 a c.y h.down in
      elim (Bool-cases (ltb_ℤ (sub_ℕ 0 dy) (twice c.err))) [
        | inl both ↦
            rw (goes, both)
              (
                b + 1,
                record {
                  down = stepped;
                  across = towards-Stepped gx1 gx2 b c.x h.across;
                  balanced =
                      both-Balanced _ _ tall (omega (arith, less_if across_e both))
                        (omega (arith, lowered, raised)) h.balanced;
                },
              )
        | inr one ↦
            rw (goes, one)
              (
                b,
                record {
                  down = stepped;
                  across = h.across;
                  balanced =
                      major-Balanced _ _ tall (omega (arith, not_less_if across_e one))
                        (omega (arith, raised_alone)) h.balanced;
                },
              )
      ]
