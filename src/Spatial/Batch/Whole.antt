-- ===== src/Spatial/Batch/Whole.antt =====
-- Batches of obstacles as one change: all or nothing, and what they leave in the map.
use rises.Base.{
  ℕ, suc, ◌≡◌, refl, inl, inr, true, List, [], ◌∷◌, Option, none, some, if◌then◌else◌, all, length,
  arith, Bool-cases, Option-cases,
}
use rises.Base.Int.{ℤ, eq_ℤ, eq_ℤ_iff}
use rises.Base.Dict.{int_keys, lookup, lookup-update}
use rises.Spatial.Shapes.{Shapes}
use rises.Spatial.Index.{slot_of, insert}
use rises.Spatial.Index.Slots.{find_slot, find_slot-insert}
use rises.Spatial.Index.Built.{ensure_built-points}
use rises.Spatial.Geofence.{
  GeometryEntry, Snapshot, new_entry, private_copy, publish, update_snapshot, drop_obstacle,
  add_entry, put_obstacle, is_accepted,
}
use rises.Spatial.Geofence.Consistent.{
  IsConsistent, lookup-put_obstacle, put_obstacle-IsConsistent, drop_obstacle-IsConsistent,
  update_snapshot-IsConsistent, private_copy-IsConsistent,
}
use rises.Spatial.Batch.{
  validate_obstacle, put_all, insert_batch, drop_all, remove_batch, add_all, exchange, update_batch,
}

module _ (S : Shapes) where
  open S use {Float, Geometry, get_bounding_box}

  -- The last entry of a batch for an id, or else what the map had.
  abbrev pub last_entry :
      List (ℤ × Geometry) → Option (GeometryEntry S) → ℤ → Option (GeometryEntry S)
  last_entry [] before k = before
  last_entry ((id, geom) ∷ rest) before k =
      last_entry rest (if eq_ℤ id k then some (new_entry S id geom) else before) k

  put_all-lookup :
      (obstacles : List (ℤ × Geometry)) (snap : Snapshot S) (k : ℤ)
      → lookup k (put_all S obstacles snap).obstacles
        ≡ last_entry obstacles (lookup k snap.obstacles) k
  unfolding put_all
  put_all-lookup [] snap k = refl
  put_all-lookup ((id, geom) ∷ rest) snap k =
      rw⁻¹ (lookup-put_obstacle S id k geom snap)
        (put_all-lookup rest (put_obstacle S id geom snap) k)

  -- A batch of valid obstacles is inserted whole: the map then has, for each id, the batch's last
  -- obstacle of that id, and otherwise what it had. A batch with an invalid one throws.
  pub insert_batch-lookup :
      (p : ℤ × Geometry) (rest : List (ℤ × Geometry)) (snap : Snapshot S)
      → (insert_batch S (p ∷ rest) snap ≡ (
          if all (validate_obstacle S) (p ∷ rest)
          then some (length (p ∷ rest), update_snapshot S (put_all S (p ∷ rest)) snap)
          else none))
        × ((k : ℤ)
            → lookup k (update_snapshot S (put_all S (p ∷ rest)) snap).obstacles
              ≡ last_entry (p ∷ rest) (lookup k snap.obstacles) k)
  unfolding insert_batch update_snapshot publish private_copy
  insert_batch-lookup p rest snap = (refl, λ k. put_all-lookup (p ∷ rest) (private_copy S snap) k)

  put_all-IsConsistent :
      (obstacles : List (ℤ × Geometry)) (snap : Snapshot S)
      → IsConsistent S snap
      → IsConsistent S (put_all S obstacles snap)
  unfolding put_all
  put_all-IsConsistent [] snap inv = inv
  put_all-IsConsistent ((id, geom) ∷ rest) snap inv =
      put_all-IsConsistent rest (put_obstacle S id geom snap)
        (put_obstacle-IsConsistent S id geom snap inv)

  -- An inserted batch keeps the index of the obstacles and their table together.
  pub insert_batch-IsConsistent :
      (obstacles : List (ℤ × Geometry)) (snap : Snapshot S) (n : ℕ) (after : Snapshot S)
      → IsConsistent S snap
      → insert_batch S obstacles snap ≡ some (n, after)
      → IsConsistent S after
  unfolding insert_batch
  insert_batch-IsConsistent [] snap n after inv e =
      let same : snap ≡ after = ground arith in rw⁻¹ same inv
  insert_batch-IsConsistent (p ∷ rest) snap n after inv e =
      elim (Bool-cases (all (validate_obstacle S) (p ∷ rest))) [
        | inl h ↦
            let same : update_snapshot S (put_all S (p ∷ rest)) snap ≡ after = ground arith in
            rw⁻¹ same (
              update_snapshot-IsConsistent S (put_all S (p ∷ rest))
                (put_all-IsConsistent (p ∷ rest)) snap inv)
        | inr h ↦ ground arith
      ]

  drop_all-IsConsistent :
      (ids : List ℤ) (n : ℕ) (snap : Snapshot S)
      → IsConsistent S snap
      → IsConsistent S (drop_all S ids (n, snap)).1
  unfolding drop_all
  drop_all-IsConsistent [] n snap inv = inv
  drop_all-IsConsistent (id ∷ rest) n snap inv = elim (Option-cases (lookup id snap.obstacles)) [
    | inl e ↦ rw (drop_all, e) (drop_all-IsConsistent rest n snap inv)
    | inr (entry, e) ↦
        rw (drop_all, e)
          (drop_all-IsConsistent rest (suc n) (drop_obstacle S id snap)
            (drop_obstacle-IsConsistent S id snap inv))
  ]

  pub remove_batch-IsConsistent :
      (ids : List ℤ) (snap : Snapshot S)
      → IsConsistent S snap
      → IsConsistent S (remove_batch S ids snap).1
  unfolding remove_batch
  remove_batch-IsConsistent [] snap inv = inv
  remove_batch-IsConsistent (id ∷ rest) snap inv =
      update_snapshot-IsConsistent S (λ new. (drop_all S (id ∷ rest) (0, new)).1)
        (λ new. drop_all-IsConsistent (id ∷ rest) 0 new) snap inv

  -- `updateBatch` with a new shape for an obstacle that is there: the table keeps the old entry,
  -- while the index has the slot of the new shape.
  pub update_batch-stale :
      (id : ℤ) (geom : Geometry) (entry : GeometryEntry S) (snap : Snapshot S)
      → IsConsistent S snap
      → lookup id snap.obstacles ≡ some entry
      → is_accepted S id geom ≡ true
      → (lookup id (update_batch S ((id, geom) ∷ []) [] snap).2.obstacles ≡ some entry)
        × (find_slot id (update_batch S ((id, geom) ∷ []) [] snap).2.obstacle_tree
            ≡ some (slot_of S id (get_bounding_box geom)))
  unfolding update_batch exchange drop_all add_all update_snapshot publish add_entry private_copy
  update_batch-stale id geom entry snap inv e ok =
      let copy = private_copy S snap in
      let box = get_bounding_box geom in
      let (p, q) = ensure_built-points S (insert S id box copy.obstacle_tree) in
      (
        rw ok (
            ground (
              arith,
              eq_ℤ_iff id id,
              lookup-update id id (new_entry S id geom) (λ old. old) snap.obstacles,
            )),
        rw (ok, p, q)
            (ground (
              arith,
              eq_ℤ_iff id id,
              find_slot-insert S id id box copy.obstacle_tree
                  (private_copy-IsConsistent S snap inv).indexed,
            )),
      )
