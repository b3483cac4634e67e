-- ===== src/Fiware/Heat/Seen.antt =====
-- The loops of `heatmapCallback` against a description of the summary.
use rises.Base.{
  ℕ, ◌+◌, ◌*◌, ◌≡◌, Bool, ◌&&◌, List, some, length, get_elem?, take, count_if, keep, map, All, ◌<◌,
  ltb, ◌==◌,
}
use rises.Base.Int.{ℤ, pos}
use rises.Fiware.Heat.{HotCell, HeatSummary, max_hot_cells, is_positive, is_hot}
use rises.Fiware.Heat.Lists.{greatest}

-- A cell that is listed has its value at its place.
abbrev pub IsAt : List ℤ → ℕ → HotCell → Type 0
IsAt data_cells width h =
    (h.col < width) × (get_elem? data_cells (h.row * width + h.col) ≡ some h.value)

-- What the loops have made of the first cells.
pub record Seen (data_cells : List ℤ) (width n : ℕ) (s : HeatSummary) : Type 0 where
  pub counted : s.nonzero ≡ pos (count_if is_positive (take n data_cells))
  pub most : s.max_val ≡ greatest (pos 0) (take n data_cells)
  pub listed : map (λ h. h.value) s.hot_cells ≡ take max_hot_cells (keep is_hot (take n data_cells))
  pub placed : All (IsAt data_cells width) s.hot_cells

-- The grid has a column and a row, and as many cells as its sizes say.
abbrev pub is_whole : ℕ → ℕ → List ℤ → Bool
is_whole width height data_cells =
    ltb 0 width && (ltb 0 height && (length data_cells == height * width))

-- What a summary says of a grid.
pub record IsSummary (width : ℕ) (data_cells : List ℤ) (s : HeatSummary) : Type 0 where
  pub counted : s.nonzero ≡ pos (count_if is_positive data_cells)
  pub most : s.max_val ≡ greatest (pos 0) data_cells
  pub listed : map (λ h. h.value) s.hot_cells ≡ take max_hot_cells (keep is_hot data_cells)
  pub placed : All (IsAt data_cells width) s.hot_cells
