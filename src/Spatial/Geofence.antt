-- ===== src/Spatial/Geofence.antt =====
-- src/geofence/spatial_node: geofence_map.cpp and geofence_map_impl.hpp.
-- A modifier runs on a private copy, under the mutex of the writers, so that the updates of a map are
-- one sequence; a snapshot is what a reader holds. An operation that throws gives `none`, and the
-- map stays as it was. A geometry entry is STATIC, and the area and the centre kept beside its box
-- are computed from it. The box in `double` is converted back without loss.
pub mod Consistent
use rises.Base.{
  ℕ, zero, suc, ◌≡◌, Bool, true, false, not, ◌&&◌, ◌||◌, List, [], ◌∷◌, Option, none, some,
  if◌then◌else◌, any, keep, map,
}
use rises.Base.Int.{ℤ, pos, ltb_ℤ, eq_ℤ}
use rises.Base.Dict.{int_keys, lookup, update, erase}
use rises.Spatial.Shapes.{BoundingBox, Shapes, Box, is_valid, has_finite_corners}
use rises.Spatial.Index.{
  Slot, NanoflannAdapter, empty_index, insert, remove, clone, ensure_built, query,
}

pub record GeometryEntry (S : Shapes) : Type 0 where
  pub id : ℤ
  pub geometry : S.Geometry
  pub bbox : BoundingBox S.Float

pub record Snapshot (S : Shapes) : Type 0 where
  pub obstacle_tree : NanoflannAdapter S.Float
  pub obstacles : List (ℤ × GeometryEntry S)
  pub area_tree : NanoflannAdapter S.Float
  pub areas : List (ℤ × BoundingBox S.Double)
  pub locked_areas : List ℤ
  pub contours : Option S.Contours

-- `emplace`, which leaves a key that is there as it is.
abbrev pub emplace {ℓ} : {V : Type ℓ} → ℤ → V → List (ℤ × V) → List (ℤ × V)
emplace k v m = update k v (λ old. old) m

abbrev pub is_negative : ℤ → Bool
is_negative id = ltb_ℤ id (pos 0)

abbrev pub contains : ℤ → List ℤ → Bool
contains id ids = any (eq_ℤ id) ids

module _ (S : Shapes) where
  open S use {
    Float, Double, to_float, less_double, is_finite_double, Geometry, get_bounding_box, Contours,
  }

  abbrev pub empty_map : Snapshot S
  empty_map = record {
    obstacle_tree = empty_index S;
    obstacles = [];
    area_tree = empty_index S;
    areas = [];
    locked_areas = [];
    contours = none;
  }

  abbrev pub new_entry : ℤ → Geometry → GeometryEntry S
  new_entry id geom = record { id = id; geometry = geom; bbox = get_bounding_box geom }

  unfoldable pub private_copy : Snapshot S → Snapshot S
  private_copy snap = record snap {
    obstacle_tree = clone S snap.obstacle_tree;
    area_tree = clone S snap.area_tree;
  }

  unfoldable pub publish : Snapshot S → Snapshot S
  publish snap = record snap {
    obstacle_tree = ensure_built S snap.obstacle_tree;
    area_tree = ensure_built S snap.area_tree;
  }

  unfoldable pub update_snapshot : (Snapshot S → Snapshot S) → Snapshot S → Snapshot S
  update_snapshot modifier snap = publish (modifier (private_copy snap))

  -- Of the snapshot, without an obstacle of this id.
  unfoldable pub drop_obstacle : ℤ → Snapshot S → Snapshot S
  drop_obstacle id snap = elim (lookup id snap.obstacles) [
    | none ↦ snap
    | some entry ↦ record snap {
      obstacle_tree = remove S id snap.obstacle_tree;
      obstacles = erase id snap.obstacles;
    }
  ]

  -- Of the snapshot, with a new entry.
  unfoldable pub add_entry : ℤ → Geometry → Snapshot S → Snapshot S
  add_entry id geom snap =
      let entry = new_entry id geom in
      record snap {
        obstacle_tree = insert S id entry.bbox snap.obstacle_tree;
        obstacles = emplace id entry snap.obstacles;
      }

  unfoldable pub put_obstacle : ℤ → Geometry → Snapshot S → Snapshot S
  put_obstacle id geom snap = add_entry id geom (drop_obstacle id snap)

  -- The checks of an obstacle.
  abbrev pub is_accepted : ℤ → Geometry → Bool
  is_accepted id geom =
      not (is_negative id)
      && (is_valid S (get_bounding_box geom) && has_finite_corners S (get_bounding_box geom))

  unfoldable pub insert_obstacle : ℤ → Geometry → Snapshot S → Option (Snapshot S)
  insert_obstacle id geom snap =
      if is_accepted id geom then some (update_snapshot (put_obstacle id geom) snap) else none

  unfoldable pub remove_obstacle : ℤ → Snapshot S → Option (Snapshot S)
  remove_obstacle id snap =
      if is_negative id then none else some (update_snapshot (drop_obstacle id) snap)

  -- The box of an area for the index.
  abbrev pub area_box : BoundingBox Double → Box S
  area_box area = record {
    min_x = to_float area.min_x;
    min_y = to_float area.min_y;
    max_x = to_float area.max_x;
    max_y = to_float area.max_y;
  }

  abbrev pub is_ordered_area : BoundingBox Double → Bool
  is_ordered_area area =
      not (less_double area.max_x area.min_x || less_double area.max_y area.min_y)

  abbrev pub is_finite_area : BoundingBox Double → Bool
  is_finite_area area =
      is_finite_double area.min_x
      && (is_finite_double area.min_y
          && (is_finite_double area.max_x && is_finite_double area.max_y))

  unfoldable pub put_area : ℤ → BoundingBox Double → Snapshot S → Snapshot S
  put_area id area snap = record snap {
    area_tree = insert S id (area_box area) snap.area_tree;
    areas = update id area (λ _. area) snap.areas;
  }

  unfoldable pub register_area : ℤ → BoundingBox Double → Snapshot S → Option (Snapshot S)
  register_area id area snap =
      if is_negative id
      then none
      else if is_ordered_area area && is_finite_area area
      then some (update_snapshot (put_area id area) snap)
      else none

  unfoldable pub add_lock : ℤ → Snapshot S → Snapshot S
  add_lock id snap = record snap {
    locked_areas =
        if contains id snap.locked_areas then snap.locked_areas else id ∷ snap.locked_areas;
  }

  unfoldable pub drop_lock : ℤ → Snapshot S → Snapshot S
  drop_lock id snap = record snap { locked_areas = keep (λ k. not (eq_ℤ id k)) snap.locked_areas }

  unfoldable pub lock_area : ℤ → Snapshot S → Option (Snapshot S)
  lock_area id snap = if is_negative id then none else some (update_snapshot (add_lock id) snap)

  unfoldable pub unlock_area : ℤ → Snapshot S → Option (Snapshot S)
  unlock_area id snap = if is_negative id then none else some (update_snapshot (drop_lock id) snap)

  abbrev pub set_contours : Contours → Snapshot S → Snapshot S
  set_contours contours snap = record snap { contours = some contours }

  unfoldable pub set_map_contours : Contours → Snapshot S → Snapshot S
  set_map_contours contours snap = update_snapshot (set_contours contours) snap

  abbrev pub is_area_locked : ℤ → Snapshot S → Bool
  is_area_locked id snap = contains id snap.locked_areas

  abbrev pub get_all_obstacle_ids : Snapshot S → List ℤ
  get_all_obstacle_ids snap = map (λ entry. entry.0) snap.obstacles

  -- The entries of ids that are obstacles.
  unfoldable pub entries_of : List (ℤ × GeometryEntry S) → List ℤ → List (GeometryEntry S)
  entries_of obstacles [] = []
  entries_of obstacles (id ∷ rest) =
      let others = entries_of obstacles rest in
      elim (lookup id obstacles) [ none ↦ others | some entry ↦ entry ∷ others ]

  module _ (radius_search : List (Slot Float) → Float → Float → Float → List ℕ) where
    -- The entries that `forEachObstacleInRegion` visits.
    unfoldable pub obstacles_in_region : Box S → Snapshot S → List (GeometryEntry S)
    obstacles_in_region bbox snap =
        entries_of snap.obstacles (query S radius_search bbox snap.obstacle_tree)

    -- Whether a predicate stops the loop of `findFirstObstacleInRegion`, negated as it returns it.
    unfoldable pub find_first :
        (GeometryEntry S → Bool) → List (ℤ × GeometryEntry S) → List ℤ → Bool
    find_first predicate obstacles [] = true
    find_first predicate obstacles (id ∷ rest) =
        let others = find_first predicate obstacles rest in
        elim (lookup id obstacles) [
          | none ↦ others
          | some entry ↦ if predicate entry then false else others
        ]

    unfoldable pub find_first_obstacle_in_region :
        (GeometryEntry S → Bool) → Box S → Snapshot S → Bool
    find_first_obstacle_in_region predicate bbox snap =
        find_first predicate snap.obstacles (query S radius_search bbox snap.obstacle_tree)
