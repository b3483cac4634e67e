-- ===== src/Translator/Applied.antt =====
-- What the collapsed updates make of the geofence map that receives them.
use rises.Base.{
  ◌≡◌, ◌≤◌, refl, ◌∙◌, Bool, true, List, [], ◌∷◌, Option, none, some, if◌then◌else◌, ◌==◌, map,
  length, All, arith,
}
use rises.Base.Int.{ℤ, eq_ℤ, eq_ℤ_iff}
use rises.Base.Dict.{int_keys, lookup}
use rises.Spatial.Shapes.{Shapes}
use rises.Spatial.Geofence.{Snapshot, empty_map}
use rises.Spatial.Batch.{MapUpdate, op_insert, op_delete}
use rises.Spatial.Service.{Stats, returned, max_updates_per_message, apply_updates}
use rises.Spatial.Service.Replayed.{
  shape_of, shape_sent, replay_one, replay, is_taken, apply_updates-replay,
}
use rises.Translator.State.{collapse_map, collapse}
use rises.Translator.Collapse.{last_insert, lookup-collapse_map, IsMap, collapse_map-IsMap}

-- An update that is an insertion or a deletion.
abbrev pub IsKnown : {Obstacle : Type 0} → MapUpdate Obstacle → Type 0
IsKnown u = u.operation ≤ op_delete

module _ (S : Shapes) {Obstacle : Type 0} (transform : Obstacle → Obstacle)
    (from_obstacle_msg : Obstacle → S.Geometry) (is_inside : S.Contours → Obstacle → Bool) where
  open S use {Geometry}

  abbrev pub shape : MapUpdate Obstacle → Geometry
  shape = shape_sent S transform from_obstacle_msg is_inside

  abbrev pub replayed : List (MapUpdate Obstacle) → (ℤ → Option Geometry) → ℤ → Option Geometry
  replayed = replay S transform from_obstacle_msg is_inside

  abbrev pub shape_from : Option Geometry → Option (MapUpdate Obstacle) → Option Geometry
  shape_from before none = before
  shape_from before (some u) = some (shape u)

  -- No shape at all.
  abbrev pub nothing : ℤ → Option Geometry
  nothing k = none

  replay-map :
      (m : List (ℤ × MapUpdate Obstacle)) (shapes : ℤ → Option Geometry) (k : ℤ)
      → IsMap m
      → replayed (map (λ entry. entry.1) m) shapes k ≡ shape_from (shapes k) (lookup k m)
  unfolding lookup
  replay-map [] shapes k h = refl
  replay-map ((j, u) ∷ m) shapes k h =
      replay-map m (replay_one S transform from_obstacle_msg is_inside u shapes) k h.3
      ∙ ground (arith, h.2, eq_ℤ_iff j k, eq_ℤ_iff u.id k)

  replay-last_insert :
      (us : List (MapUpdate Obstacle)) (shapes : ℤ → Option Geometry)
      (before : Option (MapUpdate Obstacle)) (k : ℤ)
      → All IsKnown us
      → shapes k ≡ shape_from none before
      → replayed us shapes k ≡ shape_from none (last_insert us before k)
  replay-last_insert [] shapes before k h e = e
  replay-last_insert (u ∷ rest) shapes before k h e =
      replay-last_insert rest (replay_one S transform from_obstacle_msg is_inside u shapes)
        (if eq_ℤ u.id k then (if u.operation == op_insert then some u else none) else before) k h.1
        (ground arith)

  abbrev pub or_shape : Option Geometry → Option Geometry → Option Geometry
  or_shape before none = before
  or_shape before (some g) = some g

  -- The collapsed updates give, for each id, the shape that the updates leave for it on an empty map;
  -- where they leave none, the receiver keeps what it had, also when the last update was a deletion.
  pub collapse-replay :
      (us : List (MapUpdate Obstacle)) (shapes : ℤ → Option Geometry) (k : ℤ)
      → All IsKnown us
      → replayed (collapse us) shapes k ≡ or_shape (shapes k) (replayed us nothing k)
  unfolding collapse lookup
  collapse-replay us shapes k h =
      replay-map (collapse_map us []) shapes k (collapse_map-IsMap us [] tt)
      ∙ ground (arith, lookup-collapse_map us [] k, replay-last_insert us nothing none k h refl)

  -- Where the buffered updates are insertions and deletions, and their collapse is at most 10000
  -- updates, each of which the map takes, the collapse applied as one message to a new map, without
  -- contours and areas, leaves for each id the shape that a replay of all the buffered updates in order
  -- leaves of none.
  pub flush-replay :
      (us : List (MapUpdate Obstacle))
      → All IsKnown us
      → length (collapse us) ≤ max_updates_per_message
      → All (λ u. is_taken S transform from_obstacle_msg is_inside u ≡ true) (collapse us)
      → (last : Stats) × (after : Snapshot S) × (apply_updates S transform from_obstacle_msg
            is_inside
            (collapse us)
            (empty_map S)
          ≡ (returned last, after))
        × ((k : ℤ) → shape_of S after k ≡ replayed us nothing k)
  unfolding lookup
  flush-replay us known few taken =
      let (last, after, e, shapes) =
        apply_updates-replay S transform from_obstacle_msg is_inside (collapse us) (empty_map S) few
          taken in
      (last, after, e, λ k. shapes k ∙ collapse-replay us nothing k known ∙ ground arith)
