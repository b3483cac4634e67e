-- ===== src/Grid/Lines.antt =====
-- src/geofence/gridmap_node: the loop of Bresenham's algorithm, which stands in `rasterizeLine` of
-- gridmap_policies.cpp and in the two `isPathBlocked` of gridmap_data.cpp. It runs on fuel; `none`
-- means that the fuel ran out. The cells of the end points come from floating-point geometry. The error
-- and its double are `int` and wrap around; the end points and the differences of their coordinates
-- are in the range of `int`, and the cursor stays between the end points.
use mathlib.Core.Option
use rises.Base.{
  ℕ, zero, suc, ◌+◌, ◌-◌, ◌*◌, ◌%◌, Bool, true, false, ◌&&◌, List, [], ◌∷◌, Option, none, some,
  if◌then◌else◌,
}
use rises.Base.Int.{ℤ, pos, pos_part, neg_part, sub_ℕ, ltb_ℤ, leb_ℤ, eq_ℤ, suc_ℤ, pred_ℤ, to_int}
use rises.Grid.{GridMapData, ObstacleLayer, is_occupied, is_occupied_in}

pub record Cursor : Type 0 where
  pub x : ℤ
  pub y : ℤ
  pub err : ℤ

-- `std::abs(b - a)`.
abbrev pub distance : ℤ → ℤ → ℕ
distance a b =
    (pos_part a + neg_part b - (pos_part b + neg_part a))
    + (pos_part b + neg_part a - (pos_part a + neg_part b))

-- One step from a value towards an end, from which the direction `sx` was chosen.
abbrev pub towards : ℤ → ℤ → ℤ → ℤ
towards from end x = if ltb_ℤ from end then suc_ℤ x else pred_ℤ x

unfoldable pub twice : ℤ → ℤ
twice a = to_int (sub_ℕ (2 * pos_part a) (2 * neg_part a))

-- a - n, a + n.
unfoldable pub lower : ℤ → ℕ → ℤ
lower a n = to_int (sub_ℕ (pos_part a) (neg_part a + n))

unfoldable pub raise : ℤ → ℕ → ℤ
raise a n = to_int (sub_ℕ (pos_part a + n) (neg_part a))

module _ (gx1 gy1 gx2 gy2 : ℤ) where
  abbrev pub at_end : Cursor → Bool
  at_end c = eq_ℤ c.x gx2 && eq_ℤ c.y gy2

  unfoldable pub first_cursor : Cursor
  first_cursor = record {
    x = gx1;
    y = gy1;
    err = to_int (sub_ℕ (distance gx1 gx2) (distance gy1 gy2));
  }

  -- What the loop does after the test of the end.
  unfoldable pub advance : Cursor → Cursor
  unfolding lower raise twice
  advance c =
      let dx = distance gx1 gx2 in
      let dy = distance gy1 gy2 in
      let e2 = twice c.err in
      let across =
        if ltb_ℤ (sub_ℕ 0 dy) e2
        then record c { err = lower c.err dy; x = towards gx1 gx2 c.x }
        else c in
      if ltb_ℤ e2 (pos dx)
      then record across { err = raise across.err dx; y = towards gy1 gy2 c.y }
      else across

  -- The cells that the loop of `rasterizeLine` visits.
  unfoldable pub visited : ℕ → Cursor → Option (List (ℤ × ℤ))
  visited zero c = none
  visited (suc fuel) c =
      let rest = visited fuel (advance c) in
      if at_end c then some ((c.x, c.y) ∷ []) else Option.map (λ cells. (c.x, c.y) ∷ cells) rest

module _ (width height : ℕ) where
  abbrev pub in_bounds : ℤ × ℤ → Bool
  in_bounds cell =
      (leb_ℤ (pos 0) cell.0 && ltb_ℤ cell.0 (to_int (pos width)))
      && (leb_ℤ (pos 0) cell.1 && ltb_ℤ cell.1 (to_int (pos height)))

  abbrev pub grid_to_index : ℤ × ℤ → ℕ
  grid_to_index cell = (pos_part cell.1 * width + pos_part cell.0) % 4294967296

  -- The indices that `rasterizeLine` pushes.
  abbrev pub indices : List (ℤ × ℤ) → List ℕ
  indices [] = []
  indices (cell ∷ cells) =
      if in_bounds cell then grid_to_index cell ∷ indices cells else indices cells

  module _ (occupied : ℕ → Bool) (gx1 gy1 gx2 gy2 : ℤ) where
    -- The loop of `isPathBlocked`, for the test of a cell.
    unfoldable pub blocked_from : ℕ → Cursor → Option Bool
    blocked_from zero c = none
    blocked_from (suc fuel) c =
        let rest = blocked_from fuel (advance gx1 gy1 gx2 gy2 c) in
        if in_bounds (c.x, c.y) && occupied (grid_to_index (c.x, c.y))
        then some true
        else if at_end gx1 gy1 gx2 gy2 c
        then some false
        else rest

  -- `isPathBlocked`, without a mask and with one, for what `worldToGrid` gives of the end points.
  unfoldable pub is_path_blocked_by : (ℕ → Bool) → ℕ → Option (ℤ × ℤ) → Option (ℤ × ℤ) → Option Bool
  is_path_blocked_by occupied fuel none end = some false
  is_path_blocked_by occupied fuel (some a) none = some false
  is_path_blocked_by occupied fuel (some a) (some b) =
      blocked_from occupied a.0 a.1 b.0 b.1 fuel (first_cursor a.0 a.1 b.0 b.1)

  abbrev pub is_path_blocked : GridMapData → ℕ → Option (ℤ × ℤ) → Option (ℤ × ℤ) → Option Bool
  is_path_blocked d = is_path_blocked_by (λ idx. is_occupied idx d)

  abbrev pub is_path_blocked_in :
      (ObstacleLayer → Bool) → GridMapData → ℕ → Option (ℤ × ℤ) → Option (ℤ × ℤ) → Option Bool
  is_path_blocked_in mask d = is_path_blocked_by (λ idx. is_occupied_in mask idx d)
