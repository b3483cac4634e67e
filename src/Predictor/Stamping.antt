-- ===== src/Predictor/Stamping.antt =====
-- `publishHeatmap` and `stampGaussian` of heatmap_predictor_node.cpp. `none` where an index is out of
-- range or a history has no last observation. The order of the tracks is the order in which they
-- are visited; the node's stamp, frame and geometry of the message are left out.
use rises.Base.{
  ℕ, zero, suc, ◌+◌, ◌-◌, ◌*◌, ◌≤◌, ◌<◌, ◌≡◌, refl, ◌∙◌, ◌⊎◌, inl, inr, List, Option, none, some,
  if◌then◌else◌, length, get_elem?, set, length-set, get_elem?_total, arith,
}
use native.Mathlib.Nat.{mul-le-mul_right}
use rises.Base.Int.{ℤ, pos, negsuc, pos_part, ltb_ℤ, min_ℤ, max_ℤ, sub_ℕ, to_int, to_int_fits}
use rises.Predictor.{Numbers, PredictorConfig, add_int, sub_int}

module _ (N : Numbers) (c : PredictorConfig N.Double) where
  open N use {
    Double, of_ℕ, add, sub, mul, div, exp_neg, round_int, ceil_int, Float, zero_f, low_f, hundred_f,
    to_float, add_f, mul_f, div_f, less_f, to_int8,
  }

  -- What the stamp adds to a cell.
  abbrev pub gaussian_val : Double → Double → Double → ℕ → ℕ → Float
  gaussian_val gx gy inv_2sigma2 row col =
      let dx = sub (of_ℕ col) gx in
      let dy = sub (of_ℕ row) gy in
      to_float (exp_neg (mul (add (mul dx dx) (mul dy dy)) inv_2sigma2))

  -- The cell of an `int` that is cast to `std::size_t`.
  abbrev pub at_index : List Float → ℤ → Option Float
  at_index grid (pos i) = get_elem? grid i
  at_index grid (negsuc i) = none

  -- The loop over the columns, with the number left.
  unfoldable pub stamp_row : (ℕ → ℕ → Float) → ℕ → ℕ → ℕ → List Float → Option (List Float)
  stamp_row weight row zero col grid = some grid
  stamp_row weight row (suc left) col grid =
      let index = to_int (pos (row * c.grid_cols + col)) in
      elim (at_index grid index) [
        | none ↦ none
        | some old ↦
            stamp_row weight row left (suc col)
              (set grid (pos_part index) (add_f old (weight row col)))
      ]

  -- The loop over the rows, over so many columns from one on.
  unfoldable pub stamp_rows : (ℕ → ℕ → Float) → ℕ → ℕ → ℕ → ℕ → List Float → Option (List Float)
  stamp_rows weight col_start cols zero row grid = some grid
  stamp_rows weight col_start cols (suc left) row grid =
      elim (stamp_row weight row cols col_start grid) [
        | none ↦ none
        | some next ↦ stamp_rows weight col_start cols left (suc row) next
      ]

  -- The first of the cells around a centre, and how many there are up to the last.
  abbrev pub range_start : ℤ → ℤ → ℕ
  range_start centre radius = pos_part (max_ℤ (pos 0) (sub_int centre radius))

  abbrev pub range_end : ℕ → ℤ → ℤ → ℤ
  range_end size centre radius = min_ℤ (sub_ℕ size 1) (add_int centre radius)

  abbrev pub range_count : ℕ → ℤ → ℤ → ℕ
  range_count size centre radius =
      let end = range_end size centre radius in
      if ltb_ℤ end (pos 0) then 0 else suc (pos_part end) - range_start centre radius

  unfoldable pub stamp_gaussian : Double → Double → Float → List Float → Option (List Float)
  stamp_gaussian x y weight grid =
      let gx = div (sub x c.grid_origin_x) c.grid_resolution in
      let gy = div (sub y c.grid_origin_y) c.grid_resolution in
      let sigma_cells = div c.gaussian_sigma c.grid_resolution in
      let radius = ceil_int (mul (of_ℕ 3) sigma_cells) in
      let inv_2sigma2 = div (of_ℕ 1) (mul (mul (of_ℕ 2) sigma_cells) sigma_cells) in
      let cx = round_int gx in
      let cy = round_int gy in
      stamp_rows (λ row col. mul_f weight (gaussian_val gx gy inv_2sigma2 row col))
        (range_start cx radius) (range_count c.grid_cols cx radius)
        (range_count c.grid_rows cy radius) (range_start cy radius) grid

  -- Whatever the first and the last value are, the range between them is inside the sizes.
  between_fits :
      (size : ℕ) (first last : ℤ)
      → let start = pos_part (max_ℤ (pos 0) first) in
        let end = min_ℤ (sub_ℕ size 1) last in
        let count = if ltb_ℤ end (pos 0) then 0 else suc (pos_part end) - start in
        (count ≡ 0) ⊎ (start + count ≤ size)
  between_fits size (pos m) (pos n) = ground arith
  between_fits size (pos m) (negsuc n) = ground arith
  between_fits size (negsuc m) (pos n) = ground arith
  between_fits size (negsuc m) (negsuc n) = ground arith

  range_fits :
      (size : ℕ) (centre radius : ℤ)
      → (range_count size centre radius ≡ 0)
        ⊎ (range_start centre radius + range_count size centre radius ≤ size)
  range_fits size centre radius = between_fits size (sub_int centre radius) (add_int centre radius)

  abbrev pub Kept : List Float → Option (List Float) → Type 0
  Kept grid r = (out : List Float) × (r ≡ some out) × (length out ≡ length grid)

  stamp_row-Kept :
      (weight : ℕ → ℕ → Float) (row left col : ℕ) (grid : List Float)
      → length grid < 2147483648
      → (left ≡ 0) ⊎ (row * c.grid_cols + col + left ≤ length grid)
      → Kept grid (stamp_row weight row left col grid)
  unfolding stamp_row
  stamp_row-Kept weight row zero col grid small h = (grid, refl, refl)
  stamp_row-Kept weight row (suc left) col grid small h =
      let i = row * c.grid_cols + col in
      let fits : to_int (pos i) ≡ pos i = to_int_fits (pos i) (ground arith) (omega arith) in
      let (old, e) = get_elem?_total grid i (ground arith) in
      let next = set grid i (add_f old (weight row col)) in
      let same = length-set grid i (add_f old (weight row col)) in
      let (out, f, kept) =
        stamp_row-Kept weight row left (suc col) next (omega arith) (inr (ground arith)) in
      (out, rw (stamp_row, fits, e, fits) f, kept ∙ same)

  stamp_rows-Kept :
      (weight : ℕ → ℕ → Float) (col_start cols left row : ℕ) (grid : List Float)
      → length grid < 2147483648
      → (cols ≡ 0) ⊎ (col_start + cols ≤ c.grid_cols)
      → (left ≡ 0) ⊎ (row * c.grid_cols + left * c.grid_cols ≤ length grid)
      → Kept grid (stamp_rows weight col_start cols left row grid)
  unfolding stamp_rows
  stamp_rows-Kept weight col_start cols zero row grid small inside h = (grid, refl, refl)
  stamp_rows-Kept weight col_start cols (suc left) row grid small inside h =
      let (next, e, same) = stamp_row-Kept weight row cols col_start grid small (ground arith) in
      let (out, f, kept) =
        stamp_rows-Kept weight col_start cols left (suc row) next (omega arith) inside
          (inr (ground arith)) in
      (out, rw (stamp_rows, e) f, kept ∙ same)

  rows_fit :
      (rows cols first count size : ℕ)
      → size ≡ rows * cols
      → (count ≡ 0) ⊎ (first + count ≤ rows)
      → (count ≡ 0) ⊎ (first * cols + count * cols ≤ size)
  rows_fit rows cols first count size e (inl none_left) = inl none_left
  rows_fit rows cols first count size e (inr inside) =
      let scaled = mul-le-mul_right cols inside in inr (omega arith)

  pub stamp_gaussian-Kept :
      (x y : Double) (weight : Float) (grid : List Float)
      → c.grid_rows * c.grid_cols < 2147483648
      → length grid ≡ c.grid_rows * c.grid_cols
      → Kept grid (stamp_gaussian x y weight grid)
  unfolding stamp_gaussian
  stamp_gaussian-Kept x y weight grid small size =
      let radius = ceil_int (mul (of_ℕ 3) (div c.gaussian_sigma c.grid_resolution)) in
      let cx = round_int (div (sub x c.grid_origin_x) c.grid_resolution) in
      let cy = round_int (div (sub y c.grid_origin_y) c.grid_resolution) in
      stamp_rows-Kept _ (range_start cx radius) (range_count c.grid_cols cx radius)
        (range_count c.grid_rows cy radius) (range_start cy radius) grid (omega arith)
        (range_fits c.grid_cols cx radius)
        (rows_fit c.grid_rows c.grid_cols (range_start cy radius)
          (range_count c.grid_rows cy radius) (length grid) size (range_fits c.grid_rows cy radius))
