-- ===== src/Spatial/Batch.antt =====
-- src/geofence/spatial_node: batch_operations_impl.hpp, the changes of many obstacles at once.
-- The two overloads of `insertBatch`, one of which moves its argument, are one function. The counts
-- that a modifier keeps beside the snapshot are results of its loop. An operation that throws gives
-- `none`: the new snapshot is dropped, and the map stays as it was.
pub mod Whole
use rises.Base.{
  ℕ, zero, suc, ◌+◌, Bool, true, false, List, [], ◌∷◌, ◌++◌, Option, none, some, if◌then◌else◌, all,
  length, ◌==◌,
}
use rises.Base.Int.{ℤ}
use rises.Base.Dict.{int_keys, lookup}
use rises.Spatial.Shapes.{BoundingBox, Shapes}
use rises.Spatial.Geofence.{
  Snapshot, private_copy, update_snapshot, drop_obstacle, add_entry, put_obstacle, is_accepted,
  put_area, is_ordered_area, publish,
}

-- An entry of an `ObstacleUpdateArray`: OP_INSERT is 0, OP_DELETE is 1.
pub record MapUpdate (Obstacle : Type 0) : Type 0 where
  pub operation : ℕ
  pub id : ℤ
  pub obstacle : Obstacle

abbrev pub op_insert : ℕ
op_insert = 0

abbrev pub op_delete : ℕ
op_delete = 1

module _ (S : Shapes) where
  open S use {Double, Geometry}

  abbrev pub validate_obstacle : ℤ × Geometry → Bool
  validate_obstacle p = is_accepted S p.0 p.1

  unfoldable pub put_all : List (ℤ × Geometry) → Snapshot S → Snapshot S
  put_all [] snap = snap
  put_all ((id, geom) ∷ rest) snap = put_all rest (put_obstacle S id geom snap)

  unfoldable pub insert_batch : List (ℤ × Geometry) → Snapshot S → Option (ℕ × Snapshot S)
  insert_batch [] snap = some (0, snap)
  insert_batch (p ∷ rest) snap =
      if all validate_obstacle (p ∷ rest)
      then some (suc (length rest), update_snapshot S (put_all (p ∷ rest)) snap)
      else none

  -- The loop over ids to remove, with `removed_count`.
  unfoldable pub drop_all : List ℤ → ℕ × Snapshot S → ℕ × Snapshot S
  drop_all [] (count, snap) = (count, snap)
  drop_all (id ∷ rest) (count, snap) = elim (lookup id snap.obstacles) [
    | none ↦ drop_all rest (count, snap)
    | some entry ↦ drop_all rest (suc count, drop_obstacle S id snap)
  ]

  unfoldable pub remove_batch : List ℤ → Snapshot S → ℕ × Snapshot S
  remove_batch [] snap = (0, snap)
  remove_batch (id ∷ rest) snap = (
    (drop_all (id ∷ rest) (0, private_copy S snap)).0,
    update_snapshot S (λ new. (drop_all (id ∷ rest) (0, new)).1) snap,
  )

  -- The loop over areas, which throws at the first that is not ordered.
  unfoldable pub put_areas : List (ℤ × BoundingBox Double) → Snapshot S → Option (Snapshot S)
  put_areas [] snap = some snap
  put_areas ((id, area) ∷ rest) snap =
      let after = put_areas rest (put_area S id area snap) in
      if is_ordered_area S area then after else none

  unfoldable pub register_areas_batch :
      List (ℤ × BoundingBox Double) → Snapshot S → Option (ℕ × Snapshot S)
  register_areas_batch [] snap = some (0, snap)
  register_areas_batch (p ∷ rest) snap = elim (put_areas (p ∷ rest) (private_copy S snap)) [
    | none ↦ none
    | some new ↦ some (suc (length rest), publish S new)
  ]

  -- The loop over obstacles to insert, with `inserted_count`. An entry that is there is not dropped
  -- first, unlike in `put_obstacle`.
  unfoldable pub add_all : List (ℤ × Geometry) → ℕ × Snapshot S → ℕ × Snapshot S
  add_all [] (count, snap) = (count, snap)
  add_all ((id, geom) ∷ rest) (count, snap) =
      if is_accepted S id geom
      then add_all rest (suc count, add_entry S id geom snap)
      else add_all rest (count, snap)

  -- The modifier of `updateBatch`, with both counts.
  unfoldable pub exchange : List (ℤ × Geometry) → List ℤ → Snapshot S → ℕ × ℕ × Snapshot S
  exchange to_insert to_remove snap =
      let (removed, less) = drop_all to_remove (0, snap) in
      let (inserted, more) = add_all to_insert (0, less) in (inserted, removed, more)

  unfoldable pub update_batch : List (ℤ × Geometry) → List ℤ → Snapshot S → ℕ × ℕ × Snapshot S
  update_batch to_insert to_remove snap =
      if length to_insert + length to_remove == 0 then (0, 0, snap) else (
        (exchange to_insert to_remove (private_copy S snap)).0,
        (exchange to_insert to_remove (private_copy S snap)).1,
        update_snapshot S (λ new. (exchange to_insert to_remove new).2) snap,
      )

  module _ {Obstacle : Type 0} (from_obstacle_msg : Obstacle → Geometry) where
    -- The obstacles to insert and the ids to remove, each in order.
    unfoldable pub separate : List (MapUpdate Obstacle) → List (ℤ × Geometry) × List ℤ
    separate [] = ([], [])
    separate (u ∷ rest) =
        let (inserts, removes) = separate rest in
        if u.operation == op_insert
        then ((u.id, from_obstacle_msg u.obstacle) ∷ inserts, removes)
        else if u.operation == op_delete
        then (inserts, u.id ∷ removes)
        else (inserts, removes)

    unfoldable pub process_ros_updates : List (MapUpdate Obstacle) → Snapshot S → ℕ × ℕ × Snapshot S
    process_ros_updates [] snap = (0, 0, snap)
    process_ros_updates (u ∷ rest) snap =
        let (inserts, removes) = separate (u ∷ rest) in update_batch inserts removes snap
