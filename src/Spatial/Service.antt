-- ===== src/Spatial/Service.antt =====
-- src/geofence/spatial_node: map_update_handler.cpp, and the map services of geofencing_node.cpp.
-- The coordinate transform, the reading of a shape from a message, the reading of contours and the
-- test against the contours are parameters. The visualizer only draws. A service that throws sends
-- no response; the node's map is then what the operations before the throw made of it.
pub mod Replayed
pub mod Kept
pub mod Areas
use rises.Base.{
  ℕ, zero, suc, ◌+◌, Bool, true, false, not, List, [], ◌∷◌, Option, none, some, if◌then◌else◌,
  length, ltb, ◌==◌,
}
use rises.Base.Int.{ℤ}
use rises.Base.Dict.{int_keys, lookup}
use rises.Spatial.Shapes.{BoundingBox, Shapes}
use rises.Spatial.Geofence.{
  Snapshot, insert_obstacle, remove_obstacle, register_area, lock_area, unlock_area,
  set_map_contours, is_area_locked, get_all_obstacle_ids, contains,
}
use rises.Spatial.Batch.{MapUpdate, op_insert, op_delete}

pub record Stats : Type 0 where
  pub added : ℕ
  pub removed : ℕ
  pub outside_contours : ℕ
  pub remove_not_found : ℕ

abbrev pub no_stats : Stats
no_stats = record { added = 0; removed = 0; outside_contours = 0; remove_not_found = 0 }

abbrev pub max_updates_per_message : ℕ
max_updates_per_message = 10000

abbrev pub count_insert : Bool → Stats → Stats
count_insert inside stats = record stats {
  added = suc stats.added;
  outside_contours = if inside then stats.outside_contours else suc stats.outside_contours;
}

abbrev pub count_delete : Bool → Stats → Stats
count_delete existed stats = record stats {
  removed = suc stats.removed;
  remove_not_found = if existed then stats.remove_not_found else suc stats.remove_not_found;
}

-- How a call ends: a value, or an exception that leaves it.
pub data Completion (A : Type 0) : Type 0 where
  returned : A → Completion A
  threw : Completion A

abbrev pub is_some {ℓ} : {A : Type ℓ} → Option A → Bool
is_some none = false
is_some (some a) = true

module _ (S : Shapes) where
  open S use {Geometry, Contours, Double}

  module _ {Obstacle : Type 0} (transform : Obstacle → Obstacle)
      (from_obstacle_msg : Obstacle → Geometry) (is_inside : Contours → Obstacle → Bool) where
    -- Whether an obstacle lies inside the contours, if the map has any.
    abbrev pub is_inside_map : Option Contours → Obstacle → Bool
    is_inside_map none obstacle = true
    is_inside_map (some contours) obstacle = is_inside contours obstacle

    -- The branch of an insertion. The contours are those that the map had before the first update.
    unfoldable pub apply_insert :
        Option Contours → MapUpdate Obstacle → Stats × Snapshot S → Option (Stats × Snapshot S)
    apply_insert contours update (stats, snap) =
        let obstacle = transform update.obstacle in
        elim (insert_obstacle S update.id (from_obstacle_msg obstacle) snap) [
          | none ↦ none
          | some after ↦ some (count_insert (is_inside_map contours obstacle) stats, after)
        ]

    unfoldable pub apply_delete :
        MapUpdate Obstacle → Stats × Snapshot S → Option (Stats × Snapshot S)
    apply_delete update (stats, snap) =
        let existed = is_some (lookup update.id snap.obstacles) in
        elim (remove_obstacle S update.id snap) [
          | none ↦ none
          | some after ↦ some (count_delete existed stats, after)
        ]

    unfoldable pub apply_update :
        Option Contours → MapUpdate Obstacle → Stats × Snapshot S → Option (Stats × Snapshot S)
    apply_update contours update state =
        if update.operation == op_insert
        then apply_insert contours update state
        else if update.operation == op_delete
        then apply_delete update state
        else some state

    -- The loop, with the map that is left when an update throws.
    unfoldable pub apply_each :
        Option Contours
        → List (MapUpdate Obstacle)
        → Stats × Snapshot S
        → Completion Stats × Snapshot S
    apply_each contours [] (stats, snap) = (returned stats, snap)
    apply_each contours (update ∷ rest) state = elim (apply_update contours update state) [
      | none ↦ (threw, state.1)
      | some after ↦ apply_each contours rest after
    ]

    unfoldable pub apply_updates :
        List (MapUpdate Obstacle) → Snapshot S → Completion Stats × Snapshot S
    apply_updates updates snap =
        if ltb max_updates_per_message (length updates)
        then (returned no_stats, snap)
        else apply_each snap.contours updates (no_stats, snap)

    -- success, obstacles_added and obstacles_removed of the response.
    unfoldable pub update_map_service :
        List (MapUpdate Obstacle)
        → Option (Snapshot S)
        → Completion (Bool × ℕ × ℕ) × Option (Snapshot S)
    update_map_service updates none = (returned (false, 0, 0), none)
    update_map_service updates (some snap) =
        let (outcome, after) = apply_updates updates snap in
        elim outcome [
          | returned stats ↦ (returned (true, stats.added, stats.removed), some after)
          | threw ↦ (threw, some after)
        ]

  pub record AreaRequest : Type 0 where
    pub area_id : ℤ
    pub lock : Bool
    pub area : BoundingBox Double

  abbrev pub narrowed : BoundingBox Double → BoundingBox Double
  narrowed b = record {
    min_x = S.to_double (S.to_float b.min_x);
    min_y = S.to_double (S.to_float b.min_y);
    max_x = S.to_double (S.to_float b.max_x);
    max_y = S.to_double (S.to_float b.max_y);
  }

  -- success of the response. The corners are narrowed to `float` and widened again.
  unfoldable pub area_state_service :
      AreaRequest → Option (Snapshot S) → Completion Bool × Option (Snapshot S)
  area_state_service request none = (returned false, none)
  area_state_service request (some snap) =
      if request.lock
      then elim (register_area S request.area_id (narrowed request.area) snap) [
        | none ↦ (threw, some snap)
        | some registered ↦ elim (lock_area S request.area_id registered) [
          | none ↦ (threw, some registered)
          | some locked ↦ (returned true, some locked)
        ]
      ]
      else elim (unlock_area S request.area_id snap) [
        | none ↦ (threw, some snap)
        | some unlocked ↦ (returned true, some unlocked)
      ]

  -- found and locked of the response.
  unfoldable pub get_area_state_service : ℤ → Option (Snapshot S) → Bool × Bool
  get_area_state_service area_id none = (false, false)
  get_area_state_service area_id (some snap) =
      if contains area_id (get_all_obstacle_ids S snap)
      then (true, is_area_locked S area_id snap)
      else (false, false)

  -- success of the response. The layout is refused without segments.
  unfoldable pub update_warehouse_layout_service :
      ℕ → Contours → Option (Snapshot S) → Bool × Option (Snapshot S)
  update_warehouse_layout_service segments contours none = (false, none)
  update_warehouse_layout_service segments contours (some snap) =
      if segments == 0 then (false, some snap) else (true, some (set_map_contours S contours snap))

  -- obstacle_count and contours_loaded of the response.
  unfoldable pub get_map_info_service : Option (Snapshot S) → ℕ × Bool
  get_map_info_service none = (0, false)
  get_map_info_service (some snap) = (length (get_all_obstacle_ids S snap), is_some snap.contours)
