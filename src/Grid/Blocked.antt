-- ===== src/Grid/Blocked.antt =====
-- What `isPathBlocked` says of the obstacles that are stored.
use mathlib.Core.Path.{fun_ext}
use rises.Base.{ℕ, suc, ◌<◌, ◌≡◌, ap, ◌∙◌, max, Bool, ◌&&◌, List, Option, some, any}
use rises.Base.Int.{ℤ}
use rises.Grid.{ObstacleLayer, GridMapData, empty_grid, is_occupied, is_occupied_in, Edit, run}
use rises.Grid.Maps.{Roomy, covers, run-occupied}
use rises.Grid.Lines.{
  distance, first_cursor, visited, indices, is_path_blocked_by, is_path_blocked, is_path_blocked_in,
}
use rises.Grid.Strides.{short}
use rises.Grid.Visits.{visited_total, is_path_blocked_by-visited}

-- A stored obstacle of the layers in a mask covers the cell.
abbrev pub covered_in : (ObstacleLayer → Bool) → GridMapData → ℕ → Bool
covered_in mask d idx = any (λ entry. mask entry.1.layer && covers idx entry) d.obstacles

abbrev pub covered : GridMapData → ℕ → Bool
covered d idx = any (covers idx) d.obstacles

-- After any edits whose insertions are in range and occupy no cell more than 65535 times, the check of
-- a path between two cells less than 2 ^ 29 columns and rows apart ends, and is true exactly when a stored obstacle covers a cell
-- that `rasterizeLine` would mark for the same ends; the check with a mask of layers is true exactly when
-- an obstacle in those layers does.
pub run-path_blocked :
    (width height : ℕ) (gx1 gy1 gx2 gy2 : ℤ) (size : ℕ) (es : List Edit)
    (mask : ObstacleLayer → Bool)
    → distance gx1 gx2 < short
    → distance gy1 gy2 < short
    → Roomy size es (empty_grid size)
    → let d = run es (empty_grid size) in
      let fuel = suc (max (distance gx1 gx2) (distance gy1 gy2)) in
      (cells : List (ℤ × ℤ)) × (visited gx1 gy1 gx2 gy2 fuel (first_cursor gx1 gy1 gx2 gy2)
        ≡ some cells)
      × (is_path_blocked width height d fuel (some (gx1, gy1)) (some (gx2, gy2))
          ≡ some (any (covered d) (indices width height cells)))
      × (is_path_blocked_in width height mask d fuel (some (gx1, gy1)) (some (gx2, gy2))
          ≡ some (any (covered_in mask d) (indices width height cells)))
run-path_blocked width height gx1 gy1 gx2 gy2 size es mask few_across few_down fits =
    let d = run es (empty_grid size) in
    let fuel = suc (max (distance gx1 gx2) (distance gy1 gy2)) in
    let from : Option (ℤ × ℤ) = some (gx1, gy1) in
    let to : Option (ℤ × ℤ) = some (gx2, gy2) in
    let whole : (λ idx. is_occupied idx d) ≡ covered d =
      fun_ext (λ idx. (run-occupied size es mask idx fits).0) in
    let part : (λ idx. is_occupied_in mask idx d) ≡ covered_in mask d =
      fun_ext (λ idx. (run-occupied size es mask idx fits).1) in
    let (cells, e, n, first, last) = visited_total gx1 gy1 gx2 gy2 few_across few_down in
    let scan = λ (occupied : ℕ → Bool).
      is_path_blocked_by-visited width height occupied gx1 gy1 gx2 gy2 _ cells e in
    (
      cells,
      e,
      ap (λ t. is_path_blocked_by width height t fuel from to) whole ∙ scan (covered d),
      ap (λ t. is_path_blocked_by width height t fuel from to) part ∙ scan (covered_in mask d),
    )
