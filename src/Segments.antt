-- ===== src/Segments.antt =====
-- src/geofence/spatial_node: error_segment_tracker.hpp.
-- A shape is a centroid with a bounding box, all `float`. What is computed on shapes is a parameter:
-- `drifted`, whether a shape has left an origin behind (never, for a drift of 0), and `score`, the
-- rank of the score of a shape against an earlier one; the code's scores are not negative. The cells
-- that `toGrid` finds come with an observation, and are inside the range of `int32_t`, so that one more
-- and one less are too. `std::sort` is a parameter. An id is its 32 bits, of which the highest is the sign.
pub mod Scan
pub mod Choice
pub mod Unique
pub mod Drift
mod Tests
use rises.Base.{
  ℕ, zero, suc, ◌+◌, ◌-◌, ◌%◌, Bool, true, false, ◌&&◌, List, [], ◌∷◌, ◌++◌, Option, none, some,
  any, if◌then◌else◌, leb, ◌==◌,
}
use rises.Base.Int.{ℤ, pos, negsuc, pos_part, neg_part, ltb_ℤ, eq_ℤ, suc_ℤ, pred_ℤ, min_ℤ, max_ℤ}

pub record Entry (Shape : Type 0) : Type 0 where
  pub cell_x : ℤ
  pub cell_y : ℤ
  pub shape : Shape
  pub origin : Shape
  pub id : ℕ

pub record Observation (Shape : Type 0) : Type 0 where
  pub seen : Shape
  pub gx : ℤ
  pub gy : ℤ
  pub aabb_gx_min : ℤ
  pub aabb_gx_max : ℤ
  pub aabb_gy_min : ℤ
  pub aabb_gy_max : ℤ

pub record Tracker (Shape : Type 0) : Type 0 where
  pub next_id : ℕ
  pub previous : List (Entry Shape)
  pub current : List (Entry Shape)
  pub claimed_ids : List ℕ

pub record Window : Type 0 where
  pub search_col_min : ℤ
  pub search_col_max : ℤ
  pub search_row_min : ℤ
  pub search_row_max : ℤ

-- The best entry so far; the origin that no entry gave is not read.
pub record Best (Shape : Type 0) : Type 0 where
  pub score : ℤ
  pub id : ℕ
  pub origin : Option Shape

unfoldable pub start : {Shape : Type 0} → Tracker Shape
start = record { next_id = 1; previous = []; current = []; claimed_ids = [] }

-- The bits of -1.
abbrev pub minus_one : ℕ
minus_one = 4294967295

-- `EntryCmp`, on the cells.
abbrev pub before : ℤ → ℤ → ℤ → ℤ → Bool
before x y x' y' = if eq_ℤ x x' then ltb_ℤ y y' else ltb_ℤ x x'

unfoldable pub window : {Shape : Type 0} → Observation Shape → Window
window o = record {
  search_col_min = min_ℤ (pred_ℤ o.gx) (pred_ℤ o.aabb_gx_min);
  search_col_max = max_ℤ (suc_ℤ o.gx) (suc_ℤ o.aabb_gx_max);
  search_row_min = min_ℤ (pred_ℤ o.gy) (pred_ℤ o.aabb_gy_min);
  search_row_max = max_ℤ (suc_ℤ o.gy) (suc_ℤ o.aabb_gy_max);
}

-- `std::lower_bound`: the entries from the first that is not before the cell on.
unfoldable pub lower_bound : {Shape : Type 0} → ℤ → ℤ → List (Entry Shape) → List (Entry Shape)
lower_bound x y [] = []
lower_bound x y (e ∷ es) = if before e.cell_x e.cell_y x y then lower_bound x y es else e ∷ es

abbrev pub is_id_claimed : List ℕ → ℕ → Bool
is_id_claimed claimed_ids id = any (λ claimed. claimed == id) claimed_ids

-- The number of columns from `lo` to `hi`.
abbrev pub columns : ℤ → ℤ → ℕ
columns lo hi = suc (pos_part hi + neg_part lo) - (pos_part lo + neg_part hi)

module _ {Shape : Type 0} (drifted : Shape → Shape → Bool) (score : Shape → Shape → ℕ)
    (claimed_ids : List ℕ) (seen : Shape) where
  -- The body of the inner loop, after the tests of the cell.
  unfoldable pub consider : Best Shape → Entry Shape → Best Shape
  consider best e =
      if is_id_claimed claimed_ids e.id
      then best
      else if drifted seen e.origin
      then best
      else if ltb_ℤ best.score (pos (score e.shape seen))
      then record { score = pos (score e.shape seen); id = e.id; origin = some e.origin }
      else best

  -- The inner loop.
  unfoldable pub scan_column : Window → ℤ → List (Entry Shape) → Best Shape → Best Shape
  scan_column w col [] best = best
  scan_column w col (e ∷ es) best =
      let rest =
        scan_column w col es (if ltb_ℤ e.cell_y w.search_row_min then best else consider best e) in
      if eq_ℤ e.cell_x col then (if ltb_ℤ w.search_row_max e.cell_y then best else rest) else best

  -- The outer loop, over `n` columns from `col` on.
  unfoldable pub scan_columns : Window → List (Entry Shape) → ℕ → ℤ → Best Shape → Best Shape
  scan_columns w previous zero col best = best
  scan_columns w previous (suc n) col best =
      scan_columns w previous n (suc_ℤ col)
        (scan_column w col (lower_bound col (pred_ℤ w.search_row_min) previous) best)

module _ {Shape : Type 0} (drifted : Shape → Shape → Bool) (score : Shape → Shape → ℕ) where
  unfoldable pub find_best : Tracker Shape → Observation Shape → Best Shape
  find_best t o =
      let w = window o in
      scan_columns drifted score t.claimed_ids o.seen w t.previous
        (columns w.search_col_min w.search_col_max) w.search_col_min
        (record { score = negsuc 0; id = minus_one; origin = none })

abbrev pub origin_or : {Shape : Type 0} → Option Shape → Shape → Shape
origin_or none s = s
origin_or (some origin) s = origin

-- What follows the loops.
unfoldable pub assign :
    {Shape : Type 0} → Best Shape → Observation Shape → Tracker Shape → ℕ × Tracker Shape
assign best o t =
    let is_new = leb 2147483648 best.id in
    let id = if is_new then t.next_id else best.id in
    (
      id,
      record t {
        next_id = if is_new then (t.next_id + 1) % 4294967296 else t.next_id;
        claimed_ids = t.claimed_ids ++ id ∷ [];
        current =
            t.current
            ++ record {
              cell_x = o.gx;
              cell_y = o.gy;
              shape = o.seen;
              origin = if is_new then o.seen else origin_or best.origin o.seen;
              id = id;
            }
              ∷ [];
      },
    )

module _ {Shape : Type 0} (drifted : Shape → Shape → Bool) (score : Shape → Shape → ℕ) where
  unfoldable pub get_or_assign_id : Tracker Shape → Observation Shape → ℕ × Tracker Shape
  get_or_assign_id t o = assign (find_best drifted score t o) o t

unfoldable pub begin_scan_cycle : {Shape : Type 0} → Tracker Shape → Tracker Shape
begin_scan_cycle t = record t { current = []; claimed_ids = [] }

unfoldable pub clear : {Shape : Type 0} → Tracker Shape → Tracker Shape
clear t = record t { previous = []; current = []; claimed_ids = []; next_id = 1 }

pub data Action (Shape : Type 0) : Type 0 where
  begin finish reset : Action Shape
  observe : Observation Shape → Action Shape

module _ {Shape : Type 0} (drifted : Shape → Shape → Bool) (score : Shape → Shape → ℕ)
    (sort : List (Entry Shape) → List (Entry Shape)) where
  unfoldable pub end_scan_cycle : Tracker Shape → Tracker Shape
  end_scan_cycle t = record t { previous = sort t.current; current = []; claimed_ids = [] }

  unfoldable pub step : Tracker Shape → Action Shape → Tracker Shape
  unfolding get_or_assign_id
  step t begin = begin_scan_cycle t
  step t (observe o) = (get_or_assign_id drifted score t o).1
  step t finish = end_scan_cycle t
  step t reset = clear t

  unfoldable pub run : Tracker Shape → List (Action Shape) → Tracker Shape
  run t [] = t
  run t (a ∷ rest) = run (step t a) rest
