-- ===== src/Spatial/Service/Kept.antt =====
-- The consistency of the map's snapshot under batches of updates.
use rises.Base.{
  ◌≡◌, inl, inr, Bool, List, [], ◌∷◌, Option, some, length, ltb, ◌==◌, arith, Bool-cases,
  Option-cases,
}
use rises.Base.Int.{ℤ}
use rises.Base.Dict.{int_keys}
use rises.Spatial.Shapes.{Shapes}
use rises.Spatial.Geofence.{
  Snapshot, update_snapshot, drop_obstacle, put_obstacle, is_accepted, is_negative, insert_obstacle,
  remove_obstacle,
}
use rises.Spatial.Geofence.Consistent.{
  IsConsistent, drop_obstacle-IsConsistent, put_obstacle-IsConsistent, update_snapshot-IsConsistent,
}
use rises.Spatial.Batch.{MapUpdate, op_insert, op_delete}
use rises.Spatial.Service.{
  Stats, no_stats, max_updates_per_message, apply_insert, apply_delete, apply_update, apply_each,
  apply_updates,
}

module _ (S : Shapes) where
  open S use {Geometry, Contours}

  pub insert_obstacle-IsConsistent :
      (id : ℤ) (geom : Geometry) (snap after : Snapshot S)
      → IsConsistent S snap
      → insert_obstacle S id geom snap ≡ some after
      → IsConsistent S after
  unfolding insert_obstacle
  insert_obstacle-IsConsistent id geom snap after inv e =
      elim (Bool-cases (is_accepted S id geom)) [
        | inl h ↦
            let same : update_snapshot S (put_obstacle S id geom) snap ≡ after = ground arith in
            rw⁻¹ same (
              update_snapshot-IsConsistent S (put_obstacle S id geom)
                (put_obstacle-IsConsistent S id geom) snap inv)
        | inr h ↦ ground arith
      ]

  pub remove_obstacle-IsConsistent :
      (id : ℤ) (snap after : Snapshot S)
      → IsConsistent S snap
      → remove_obstacle S id snap ≡ some after
      → IsConsistent S after
  unfolding remove_obstacle
  remove_obstacle-IsConsistent id snap after inv e = elim (Bool-cases (is_negative id)) [
    | inl h ↦ ground arith
    | inr h ↦
        let same : update_snapshot S (drop_obstacle S id) snap ≡ after = ground arith in
        rw⁻¹ same (
          update_snapshot-IsConsistent S (drop_obstacle S id) (drop_obstacle-IsConsistent S id) snap
            inv)
  ]

  module _ {Obstacle : Type 0} (transform : Obstacle → Obstacle)
      (from_obstacle_msg : Obstacle → Geometry) (is_inside : Contours → Obstacle → Bool) where
    apply_update-IsConsistent :
        (contours : Option Contours) (u : MapUpdate Obstacle) (stats next : Stats)
        (snap after : Snapshot S)
        → IsConsistent S snap
        → apply_update S transform from_obstacle_msg is_inside contours u (stats, snap)
          ≡ some (next, after)
        → IsConsistent S after
    unfolding apply_update apply_insert apply_delete
    apply_update-IsConsistent contours u stats next snap after inv h =
        elim (Bool-cases (u.operation == op_insert)) [
          | inl i ↦
              elim (Option-cases
                (insert_obstacle S u.id (from_obstacle_msg (transform u.obstacle)) snap)) [
                  | inl e ↦ ground arith
                  | inr (new, e) ↦
                      insert_obstacle-IsConsistent u.id (from_obstacle_msg (transform u.obstacle))
                        snap after inv (ground arith)
                ]
          | inr i ↦ elim (Bool-cases (u.operation == op_delete)) [
            | inl d ↦ elim (Option-cases (remove_obstacle S u.id snap)) [
              | inl e ↦ ground arith
              | inr (new, e) ↦ remove_obstacle-IsConsistent u.id snap after inv (ground arith)
            ]
            | inr d ↦ let same : snap ≡ after = ground arith in rw⁻¹ same inv
          ]
        ]

    apply_each-IsConsistent :
        (contours : Option Contours) (updates : List (MapUpdate Obstacle)) (stats : Stats)
        (snap : Snapshot S)
        → IsConsistent S snap
        → IsConsistent S
            (apply_each S transform from_obstacle_msg is_inside contours updates (stats, snap)).1
    unfolding apply_each
    apply_each-IsConsistent contours [] stats snap inv = inv
    apply_each-IsConsistent contours (u ∷ rest) stats snap inv =
        elim (Option-cases
          (apply_update S transform from_obstacle_msg is_inside contours u (stats, snap))) [
            | inl e ↦ rw (apply_each, e) inv
            | inr ((next, after), e) ↦
                rw (apply_each, e)
                  (apply_each-IsConsistent contours rest next after
                    (apply_update-IsConsistent contours u stats next snap after inv e))
          ]

    -- A batch keeps the index of the obstacles and their table together, also when an update throws in
    -- the middle of it.
    pub apply_updates-IsConsistent :
        (updates : List (MapUpdate Obstacle)) (snap : Snapshot S)
        → IsConsistent S snap
        → IsConsistent S (apply_updates S transform from_obstacle_msg is_inside updates snap).1
    unfolding apply_updates
    apply_updates-IsConsistent updates snap inv =
        elim (Bool-cases (ltb max_updates_per_message (length updates))) [
          | inl e ↦ rw (apply_updates, e) inv
          | inr e ↦
              rw (apply_updates, e)
                (apply_each-IsConsistent snap.contours updates no_stats snap inv)
        ]
