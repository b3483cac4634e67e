-- ===== src/Spatial/Service/Replayed.antt =====
-- A batch of updates as a replay on the abstract map from ids to shapes.
use rises.Base.{
  ◌≤◌, ◌≡◌, refl, ◌∙◌, inl, inr, Bool, true, false, not, List, [], ◌∷◌, Option, none, some,
  if◌then◌else◌, length, ltb, ◌==◌, All, arith, Bool-cases,
}
use rises.Base.Int.{ℤ, eq_ℤ}
use rises.Base.Dict.{int_keys, lookup}
use rises.Spatial.Shapes.{Shapes}
use rises.Spatial.Geofence.{
  GeometryEntry, Snapshot, private_copy, publish, update_snapshot, drop_obstacle, put_obstacle,
  is_accepted, is_negative, insert_obstacle, remove_obstacle,
}
use rises.Spatial.Geofence.Consistent.{lookup-drop_obstacle, lookup-put_obstacle}
use rises.Spatial.Batch.{MapUpdate, op_insert, op_delete}
use rises.Spatial.Service.{
  Stats, no_stats, max_updates_per_message, returned, apply_insert, apply_delete, apply_update,
  apply_each, apply_updates, count_insert, count_delete, is_inside_map, is_some,
}

module _ (S : Shapes) where
  open S use {Geometry, Contours}

  abbrev pub shape_in : Option (GeometryEntry S) → Option Geometry
  shape_in none = none
  shape_in (some entry) = some entry.geometry

  -- The shape that a map has for an id.
  abbrev pub shape_of : Snapshot S → ℤ → Option Geometry
  shape_of snap k = shape_in (lookup k snap.obstacles)

  lookup-update_snapshot :
      (modifier : Snapshot S → Snapshot S) (k : ℤ) (snap : Snapshot S)
      → lookup k (update_snapshot S modifier snap).obstacles
        ≡ lookup k (modifier (private_copy S snap)).obstacles
  unfolding update_snapshot publish
  lookup-update_snapshot modifier k snap = refl

  -- An accepted obstacle is inserted.
  pub insert_obstacle-shape :
      (id : ℤ) (geom : Geometry) (snap : Snapshot S)
      → is_accepted S id geom ≡ true
      → (after : Snapshot S) × (insert_obstacle S id geom snap ≡ some after)
        × ((k : ℤ) → shape_of after k ≡ (if eq_ℤ id k then some geom else shape_of snap k))
  unfolding insert_obstacle private_copy
  insert_obstacle-shape id geom snap h = (
    update_snapshot S (put_obstacle S id geom) snap,
    rw h refl,
    λ k. ground (
      arith,
      lookup-update_snapshot (put_obstacle S id geom) k snap,
      lookup-put_obstacle S id k geom (private_copy S snap),
    ),
  )

  pub remove_obstacle-shape :
      (id : ℤ) (snap : Snapshot S)
      → is_negative id ≡ false
      → (after : Snapshot S) × (remove_obstacle S id snap ≡ some after)
        × ((k : ℤ) → shape_of after k ≡ (if eq_ℤ id k then none else shape_of snap k))
  unfolding remove_obstacle private_copy
  remove_obstacle-shape id snap h = (
    update_snapshot S (drop_obstacle S id) snap,
    rw h refl,
    λ k. ground (
      arith,
      lookup-update_snapshot (drop_obstacle S id) k snap,
      lookup-drop_obstacle S id k (private_copy S snap),
    ),
  )

  module _ {Obstacle : Type 0} (transform : Obstacle → Obstacle)
      (from_obstacle_msg : Obstacle → Geometry) (is_inside : Contours → Obstacle → Bool) where
    abbrev pub shape_sent : MapUpdate Obstacle → Geometry
    shape_sent u = from_obstacle_msg (transform u.obstacle)

    -- One update, on a map from ids to shapes.
    abbrev pub replay_one : MapUpdate Obstacle → (ℤ → Option Geometry) → ℤ → Option Geometry
    replay_one u shapes k =
        if u.operation == op_insert
        then (if eq_ℤ u.id k then some (shape_sent u) else shapes k)
        else if u.operation == op_delete
        then (if eq_ℤ u.id k then none else shapes k)
        else shapes k

    abbrev pub replay : List (MapUpdate Obstacle) → (ℤ → Option Geometry) → ℤ → Option Geometry
    replay [] shapes = shapes
    replay (u ∷ rest) shapes = replay rest (replay_one u shapes)

    -- The map takes an update without throwing.
    abbrev pub is_taken : MapUpdate Obstacle → Bool
    is_taken u =
        if u.operation == op_insert
        then is_accepted S u.id (shape_sent u)
        else if u.operation == op_delete
        then not (is_negative u.id)
        else true

    replay-ext :
        (updates : List (MapUpdate Obstacle)) (f g : ℤ → Option Geometry)
        → ((k : ℤ) → f k ≡ g k)
        → (k : ℤ) → replay updates f k ≡ replay updates g k
    replay-ext [] f g h k = h k
    replay-ext (u ∷ rest) f g h k =
        replay-ext rest (replay_one u f) (replay_one u g) (λ j. ground (arith, h j)) k

    -- The counts after an update.
    abbrev pub count : Option Contours → MapUpdate Obstacle → Snapshot S → Stats → Stats
    count contours u snap stats =
        if u.operation == op_insert
        then count_insert
            (is_inside_map S transform from_obstacle_msg is_inside contours (transform u.obstacle))
            stats
        else if u.operation == op_delete
        then count_delete (is_some (lookup u.id snap.obstacles)) stats
        else stats

    apply_update-replay :
        (contours : Option Contours) (u : MapUpdate Obstacle) (stats : Stats) (snap : Snapshot S)
        → is_taken u ≡ true
        → (after : Snapshot S) × (apply_update S transform from_obstacle_msg is_inside contours u
              (stats, snap)
            ≡ some (count contours u snap stats, after))
          × ((k : ℤ) → shape_of after k ≡ replay_one u (shape_of snap) k)
    unfolding apply_update apply_insert apply_delete
    apply_update-replay contours u stats snap h = elim (Bool-cases (u.operation == op_insert)) [
      | inl i ↦
          let (after, e, shapes) = insert_obstacle-shape u.id (shape_sent u) snap (ground arith) in
          (after, rw (i, apply_insert, e) refl, λ k. ground (arith, shapes k))
      | inr i ↦ elim (Bool-cases (u.operation == op_delete)) [
        | inl d ↦
            let (after, e, shapes) = remove_obstacle-shape u.id snap (ground arith) in
            (after, rw (i, d, apply_delete, e) refl, λ k. ground (arith, shapes k))
        | inr d ↦ (snap, rw (i, d) refl, λ k. rw (i, d) refl)
      ]
    ]

    apply_each-replay :
        (contours : Option Contours) (updates : List (MapUpdate Obstacle)) (stats : Stats)
        (snap : Snapshot S)
        → All (λ u. is_taken u ≡ true) updates
        → (last : Stats) × (after : Snapshot S) × (apply_each S transform from_obstacle_msg
              is_inside contours updates
              (stats, snap)
            ≡ (returned last, after))
          × ((k : ℤ) → shape_of after k ≡ replay updates (shape_of snap) k)
    unfolding apply_each
    apply_each-replay contours [] stats snap h = (stats, snap, refl, λ k. refl)
    apply_each-replay contours (u ∷ rest) stats snap h =
        let (next, e, shapes) = apply_update-replay contours u stats snap h.0 in
        let (last, after, f, more) =
          apply_each-replay contours rest (count contours u snap stats) next h.1 in
        (
          last,
          after,
          rw (apply_each, e) f,
          λ k. more k ∙ replay-ext rest (shape_of next) (replay_one u (shape_of snap)) shapes k,
        )

    -- A batch of up to 10000 updates whose ids are not negative and whose shapes have ordered, finite
    -- boxes is applied without an exception, and the map then has for each id the shape that a replay of
    -- the updates gives.
    pub apply_updates-replay :
        (updates : List (MapUpdate Obstacle)) (snap : Snapshot S)
        → length updates ≤ max_updates_per_message
        → All (λ u. is_taken u ≡ true) updates
        → (last : Stats) × (after : Snapshot S) × (apply_updates S transform from_obstacle_msg
              is_inside updates snap
            ≡ (returned last, after))
          × ((k : ℤ) → shape_of after k ≡ replay updates (shape_of snap) k)
    unfolding apply_updates
    apply_updates-replay updates snap few h =
        rw (ltb_false few) (apply_each-replay snap.contours updates no_stats snap h)
      where
        ltb_false :
            length updates ≤ max_updates_per_message
            → ltb max_updates_per_message (length updates) ≡ false
        ltb_false l = ground arith
