-- ===== src/Fiware/Heat.antt =====
-- `heatmapCallback`: the summary of an occupancy grid.
pub mod Lists
pub mod Seen
use rises.Base.{
  ℕ, zero, suc, ◌+◌, ◌*◌, ◌≤◌, ◌≡◌, refl, sym, ◌∙◌, ap, inl, inr, Bool, not, ◌&&◌, ◌||◌, ◌⊎◌, List,
  [], ◌∷◌, ◌++◌, Option, none, some, true, false, All-append, if◌then◌else◌, length, get_elem?,
  take, count_if, keep, map, All, ◌<◌, ltb, ◌==◌, arith, Bool-cases, get_elem?_total, take_all,
}
use native.Mathlib.Nat.{mul_comm}
use rises.Base.Int.{ℤ, pos, leb_ℤ, ltb_ℤ, max_ℤ, suc_ℤ, suc_ℤ_parts, to_int, to_int_fits}

-- A cell above the threshold: its column, row and value.
pub record HotCell : Type 0 where
  pub col : ℕ
  pub row : ℕ
  pub value : ℤ

pub record HeatSummary : Type 0 where
  pub nonzero : ℤ
  pub max_val : ℤ
  pub hot_cells : List HotCell

abbrev pub heatmap_cell_threshold : ℤ
heatmap_cell_threshold = pos 10

abbrev pub max_hot_cells : ℕ
max_hot_cells = 200

-- The body of the loops.
unfoldable pub see_cell : ℕ → ℕ → ℤ → HeatSummary → HeatSummary
see_cell row col cell s =
    let positive = ltb_ℤ (pos 0) cell in
    let hot = leb_ℤ heatmap_cell_threshold cell && ltb (length s.hot_cells) max_hot_cells in
    record {
      nonzero = if positive then to_int (suc_ℤ s.nonzero) else s.nonzero;
      max_val = if positive then max_ℤ s.max_val cell else s.max_val;
      hot_cells =
          if hot
          then s.hot_cells ++ record { col = col; row = row; value = cell } ∷ []
          else s.hot_cells;
    }

-- The loop over the columns, with the number left. `none` where an index is out of range.
unfoldable pub see_row : List ℤ → ℕ → ℕ → ℕ → ℕ → HeatSummary → Option HeatSummary
see_row data_cells width row zero col s = some s
see_row data_cells width row (suc left) col s = elim (get_elem? data_cells (row * width + col)) [
  | none ↦ none
  | some cell ↦ see_row data_cells width row left (suc col) (see_cell row col cell s)
]

unfoldable pub see_rows : List ℤ → ℕ → ℕ → ℕ → HeatSummary → Option HeatSummary
see_rows data_cells width zero row s = some s
see_rows data_cells width (suc left) row s = elim (see_row data_cells width row width 0 s) [
  | none ↦ none
  | some next ↦ see_rows data_cells width left (suc row) next
]

abbrev pub no_heat : HeatSummary
no_heat = record { nonzero = pos 0; max_val = pos 0; hot_cells = [] }

-- What a grid's sizes and cells make of the callback, once it is not throttled.
pub data HeatOutcome : Type 0 where
  rejected : HeatOutcome
  out_of_range : HeatOutcome
  summary : HeatSummary → HeatOutcome

abbrev pub outcome_of : Option HeatSummary → HeatOutcome
outcome_of none = out_of_range
outcome_of (some s) = summary s

unfoldable pub summarize : ℕ → ℕ → List ℤ → HeatOutcome
summarize width height data_cells =
    if width == 0 || (height == 0 || not (width * height == length data_cells))
    then rejected
    else outcome_of (see_rows data_cells width height 0 no_heat)

abbrev pub is_positive : ℤ → Bool
is_positive cell = ltb_ℤ (pos 0) cell

abbrev pub is_hot : ℤ → Bool
is_hot cell = leb_ℤ heatmap_cell_threshold cell
