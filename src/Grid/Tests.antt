-- ===== src/Grid/Tests.antt =====
-- A map of four cells: obstacle 1 is inserted twice, obstacle 2 shares a cell with it.
use rises.Base.{◌≡◌, refl, some, Bool, true, false, ◌&&◌, List, [], ◌∷◌, none, any, arith}
use rises.Base.Dict.{lookup, update, erase, nat_eq}
use rises.Grid.{
  ObstacleLayer, fixed, static, dynamic, empty_grid, is_occupied, is_occupied_in, Edit, inserts,
  removes, step, run, insert, remove, rasterize, set_cell, clear_cells, clear_cell, release_cell,
}
use rises.Base.Int.{ℤ, pos, negsuc, suc_ℤ, pred_ℤ, to_int}
use rises.Grid.Lines.{
  visited, first_cursor, advance, twice, lower, raise, indices, is_path_blocked, is_path_blocked_in,
}
use rises.Grid.Visits.{Reaches, visited_total}
use rises.Grid.Blocked.{covered, covered_in, run-path_blocked}
use rises.Grid.Maps.{Roomy, covers, stored, run-occupied, run-stored}

abbrev day : List Edit
day =
    inserts 1 static (0 ∷ 1 ∷ [])
    ∷ inserts 2 fixed (1 ∷ 2 ∷ [])
    ∷ inserts 1 dynamic (1 ∷ [])
    ∷ removes 2
    ∷ []

day-Roomy : Roomy 4 day (empty_grid 4)
unfolding empty_grid step insert remove rasterize set_cell clear_cells clear_cell release_cell
    lookup update erase
day-Roomy = (
  (((omega arith, (omega arith, tt))), λ i. ground arith),
  (
    (((omega arith, (omega arith, tt))), λ i. ground arith),
    ((((omega arith, tt)), λ i. ground arith), (tt, tt)),
  ),
)

abbrev seen : ObstacleLayer → Bool
seen static = false
seen _ = true

run-occupied_example :
    let d = run day (empty_grid 4) in
    (is_occupied 1 d ≡ any (covers 1) d.obstacles)
    × (is_occupied_in seen 1 d ≡ any (λ entry. seen entry.1.layer && covers 1 entry) d.obstacles)
run-occupied_example = run-occupied 4 day seen 1 day-Roomy

run-stored_example : lookup 1 (run day (empty_grid 4)).obstacles ≡ stored 1 day none
run-stored_example = run-stored 4 day 1 day-Roomy

-- A line over a map of two columns and two rows.
visited_total_example :
    Reaches (pos 0) (negsuc 0) (pos 2) (pos 0) 2 (first_cursor (pos 0) (negsuc 0) (pos 2) (pos 0))
visited_total_example = visited_total (pos 0) (negsuc 0) (pos 2) (pos 0) (omega arith) (omega arith)

run-path_blocked_example :
    let d = run day (empty_grid 4) in
    (cells : List (ℤ × ℤ)) × (visited
        (pos 0)
        (pos 0)
        (pos 1)
        (pos 1)
        2
        (first_cursor (pos 0) (pos 0) (pos 1) (pos 1))
      ≡ some cells)
    × (is_path_blocked 2 2 d 2 (some (pos 0, pos 0)) (some (pos 1, pos 1))
        ≡ some (any (covered d) (indices 2 2 cells)))
    × (is_path_blocked_in 2 2 seen d 2 (some (pos 0, pos 0)) (some (pos 1, pos 1))
        ≡ some (any (covered_in seen d) (indices 2 2 cells)))
run-path_blocked_example =
    run-path_blocked 2 2 (pos 0) (pos 0) (pos 1) (pos 1) 4 day seen (omega arith) (omega arith)
      day-Roomy

-- A steep line to the left.
visited_steep :
    visited (pos 1) (pos 0) (pos 0) (pos 3) 4 (first_cursor (pos 1) (pos 0) (pos 0) (pos 3))
    ≡ some ((pos 1, pos 0) ∷ (pos 1, pos 1) ∷ (pos 0, pos 2) ∷ (pos 0, pos 3) ∷ [])
unfolding visited first_cursor advance twice lower raise suc_ℤ pred_ℤ to_int
visited_steep = refl
