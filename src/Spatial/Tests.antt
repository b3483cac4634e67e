-- ===== src/Spatial/Tests.antt =====
-- Boxes of natural numbers: a map with two obstacles, and the operations on it.
use rises.Base.{
  ℕ, ◌+◌, ◌-◌, ◌*◌, ◌≡◌, refl, Bool, true, false, [], ◌∷◌, none, some, if◌then◌else◌, ltb, leb,
  arith,
}
use rises.Base.Int.{ℤ, pos, negsuc, eq_ℤ}
use rises.Base.Dict.{int_keys, lookup, update}
use rises.Spatial.Shapes.{BoundingBox, Shapes}
use rises.Spatial.Index.{NanoflannAdapter, empty_index, insert, remove}
use rises.Spatial.Index.Slots.{find_slot, IsIndexed, empty-IsIndexed, insert-IsIndexed}
use rises.Spatial.Index.Removal.{find_slot-remove}
use rises.Spatial.Index.Reach.{IsCovered, insert-IsCovered, remove-IsCovered}
use rises.Spatial.Pool.{SnapshotMemoryPool, acquire, from_heap, acquire-from_heap}
use rises.Spatial.Geofence.{Snapshot, empty_map, put_obstacle, drop_obstacle, add_entry}
use rises.Spatial.Geofence.Consistent.{
  IsConsistent, empty_map-IsConsistent, put_obstacle-IsConsistent,
}
use rises.Spatial.Batch.{MapUpdate}
use rises.Spatial.Service.{
  Stats, returned, apply_updates, area_state_service, get_area_state_service,
}
use rises.Spatial.Service.Replayed.{shape_of, replay, apply_updates-replay}
use rises.Spatial.Service.Kept.{apply_updates-IsConsistent}
use rises.Spatial.Service.Areas.{get_area_state-not_found}

abbrev ℕ_shapes : Shapes
ℕ_shapes = record {
  Float = ℕ;
  zero_f = 0;
  half = 1;
  add = λ a b. a + b;
  sub = λ a b. a - b;
  mul = λ a b. a * b;
  sqrt = λ a. a;
  leq = leb;
  less = ltb;
  is_finite = λ a. true;
  Double = ℕ;
  to_float = λ a. a;
  to_double = λ a. a;
  less_double = ltb;
  is_finite_double = λ a. true;
  Geometry = BoundingBox ℕ;
  get_bounding_box = λ g. g;
  Contours = ℕ;
}

abbrev square : ℕ → BoundingBox ℕ
square n = record { min_x = n; min_y = n; max_x = n + n; max_y = n + n }

abbrev one_slot : NanoflannAdapter ℕ
one_slot = insert ℕ_shapes (pos 4) (square 2) (empty_index ℕ_shapes)

one_slot-IsIndexed : IsIndexed one_slot
unfolding lookup
one_slot-IsIndexed =
    insert-IsIndexed ℕ_shapes (pos 4) (square 2) (empty_index ℕ_shapes) (empty-IsIndexed ℕ_shapes)
      refl

find_slot-remove_example :
    find_slot (pos 4) (remove ℕ_shapes (pos 7) one_slot)
    ≡ (if eq_ℤ (pos 7) (pos 4) then none else find_slot (pos 4) one_slot)
find_slot-remove_example = find_slot-remove ℕ_shapes (pos 7) (pos 4) one_slot one_slot-IsIndexed

ltb_asym : (a b : ℕ) → ltb a b ≡ true → ltb b a ≡ false
ltb_asym a b h = ground arith

ltb_chain : (a b c : ℕ) → ltb a b ≡ false → ltb b c ≡ false → ltb a c ≡ false
ltb_chain a b c h k = ground arith

remove-IsCovered_example : IsCovered ℕ_shapes (remove ℕ_shapes (pos 4) one_slot)
remove-IsCovered_example =
    remove-IsCovered ℕ_shapes ltb_asym ltb_chain (pos 4) one_slot
      (insert-IsCovered ℕ_shapes ltb_asym ltb_chain (pos 4) (square 2) (empty_index ℕ_shapes) tt)

-- Nobody else holds the first snapshot.
abbrev idle_pool : SnapshotMemoryPool
idle_pool = record {
  pool = 0 ∷ 1 ∷ 0 ∷ 0 ∷ [];
  next_slot = 0;
  allocations_from_pool = 0;
  allocations_from_heap = 0;
}

acquire-from_heap_example :
    ((acquire idle_pool).0 ≡ from_heap) × ((acquire idle_pool).1.allocations_from_pool ≡ 0)
acquire-from_heap_example = acquire-from_heap idle_pool

abbrev one_obstacle : Snapshot ℕ_shapes
one_obstacle = put_obstacle ℕ_shapes (pos 4) (square 2) (empty_map ℕ_shapes)

one_obstacle-IsConsistent : IsConsistent ℕ_shapes one_obstacle
one_obstacle-IsConsistent =
    put_obstacle-IsConsistent ℕ_shapes (pos 4) (square 2) (empty_map ℕ_shapes)
      (empty_map-IsConsistent ℕ_shapes)

abbrev inserted : MapUpdate (BoundingBox ℕ)
inserted = record { operation = 0; id = pos 9; obstacle = square 3 }

abbrev deleted : MapUpdate (BoundingBox ℕ)
deleted = record { operation = 1; id = pos 4; obstacle = square 0 }

abbrev misplaced : MapUpdate (BoundingBox ℕ)
misplaced = record { operation = 0; id = negsuc 0; obstacle = square 3 }

abbrev same_box : BoundingBox ℕ → BoundingBox ℕ
same_box b = b

abbrev everywhere : ℕ → BoundingBox ℕ → Bool
everywhere c b = true

apply_updates-IsConsistent_example :
    IsConsistent ℕ_shapes
      (apply_updates ℕ_shapes same_box same_box everywhere
        (inserted ∷ misplaced ∷ [])
        one_obstacle).1
apply_updates-IsConsistent_example =
    apply_updates-IsConsistent ℕ_shapes same_box same_box everywhere (inserted ∷ misplaced ∷ [])
      one_obstacle one_obstacle-IsConsistent

apply_updates-replay_example :
    (last : Stats) × (after : Snapshot ℕ_shapes) × (apply_updates ℕ_shapes same_box same_box
        everywhere
        (inserted ∷ deleted ∷ [])
        one_obstacle
      ≡ (returned last, after))
    × ((k : ℤ)
        → shape_of ℕ_shapes after k
          ≡ replay ℕ_shapes same_box same_box everywhere
              (inserted ∷ deleted ∷ [])
              (shape_of ℕ_shapes one_obstacle)
              k)
apply_updates-replay_example =
    apply_updates-replay ℕ_shapes same_box same_box everywhere (inserted ∷ deleted ∷ [])
      one_obstacle (omega arith) (refl, (refl, tt))

get_area_state-not_found_example :
    get_area_state_service ℕ_shapes
      (pos 8)
      (area_state_service ℕ_shapes
        (record { area_id = pos 8; lock = true; area = square 6 })
        (some one_obstacle)).1
    ≡ (false, false)
unfolding put_obstacle drop_obstacle add_entry update lookup
get_area_state-not_found_example =
    get_area_state-not_found ℕ_shapes (pos 8) (square 6) one_obstacle refl refl refl
