-- ===== src/Spatial/Index.antt =====
-- src/geofence/spatial_node/backend/spatialindex/nanoflann/nanoflann_adapter.hpp
-- The four vectors of `PointCloud`, which always grow and shrink together, are one list of slots. The
-- tree of nanoflann is the points that it was built from, and its radius search, which gives the
-- indices of the points found, is a parameter.
pub mod Slots
pub mod Removal
pub mod Built
pub mod Reach
use rises.Base.{
  ℕ, suc, ◌-◌, Bool, true, false, ◌==◌, List, [], ◌∷◌, ◌++◌, Option, none, some, if◌then◌else◌,
  length, get_elem?, set, take,
}
use rises.Base.Int.{ℤ}
use rises.Base.Dict.{int_keys, lookup, update, erase}
use rises.Spatial.Shapes.{BoundingBox, Shapes, Box}

pub record Slot (Float : Type 0) : Type 0 where
  pub x : Float
  pub y : Float
  pub id : ℤ
  pub half_diag : Float

pub record NanoflannAdapter (Float : Type 0) : Type 0 where
  pub points : List (Slot Float)
  pub kdtree : Option (List (Slot Float))
  pub needs_rebuild : Bool
  pub max_half_diag : Float
  pub id_to_index : List (ℤ × ℕ)

module _ (S : Shapes) where
  open S use {Float, zero_f, half, add, sub, mul, sqrt, leq, less}

  abbrev pub empty_index : NanoflannAdapter Float
  empty_index = record {
    points = [];
    kdtree = none;
    needs_rebuild = false;
    max_half_diag = zero_f;
    id_to_index = [];
  }

  -- `std::max`
  abbrev pub max_f : Float → Float → Float
  max_f a b = if less a b then b else a

  -- The slot of an id and its box.
  unfoldable pub slot_of : ℤ → Box S → Slot Float
  slot_of id bbox =
      let dx = sub bbox.max_x bbox.min_x in
      let dy = sub bbox.max_y bbox.min_y in
      record {
        x = mul (add bbox.min_x bbox.max_x) half;
        y = mul (add bbox.min_y bbox.max_y) half;
        id = id;
        half_diag = mul (sqrt (add (mul dx dx) (mul dy dy))) half;
      }

  unfoldable pub insert : ℤ → Box S → NanoflannAdapter Float → NanoflannAdapter Float
  insert id bbox t =
      let slot = slot_of id bbox in
      record t {
        id_to_index = update id 0 (λ _. length t.points) t.id_to_index;
        points = t.points ++ slot ∷ [];
        max_half_diag = max_f t.max_half_diag slot.half_diag;
        needs_rebuild = true;
      }

  -- `*std::max_element` of the values from one on.
  unfoldable pub max_element : Float → List (Slot Float) → Float
  max_element best [] = best
  max_element best (s ∷ rest) =
      max_element (if less best s.half_diag then s.half_diag else best) rest

  unfoldable pub max_of : List (Slot Float) → Float
  max_of [] = zero_f
  max_of (s ∷ rest) = max_element s.half_diag rest

  -- The last element in the vacated place, and one element less.
  unfoldable pub swap_out : ℕ → ℕ → List (Slot Float) → List (Slot Float)
  swap_out idx last points = elim (get_elem? points last) [
    | none ↦ points
    | some moved ↦ take last (if idx == last then points else set points idx moved)
  ]

  -- The indices with the displaced element's new one.
  unfoldable pub reindex : ℤ → ℕ → ℕ → List (Slot Float) → List (ℤ × ℕ) → List (ℤ × ℕ)
  reindex id idx last points index = elim (get_elem? points last) [
    | none ↦ index
    | some moved ↦ erase id (if idx == last then index else update moved.id 0 (λ _. idx) index)
  ]

  -- Whether the slot at an index is as large as the largest.
  abbrev pub is_largest : ℕ → NanoflannAdapter Float → Bool
  is_largest idx t = elim (get_elem? t.points idx) [
    | none ↦ false
    | some s ↦ leq t.max_half_diag s.half_diag
  ]

  unfoldable pub remove : ℤ → NanoflannAdapter Float → NanoflannAdapter Float
  remove id t = elim (lookup id t.id_to_index) [
    | none ↦ t
    | some idx ↦
        let last = length t.points - 1 in
        let rest = swap_out idx last t.points in
        record t {
          points = rest;
          id_to_index = reindex id idx last t.points t.id_to_index;
          max_half_diag = if is_largest idx t then max_of rest else t.max_half_diag;
          needs_rebuild = true;
        }
  ]

  unfoldable pub clear : NanoflannAdapter Float → NanoflannAdapter Float
  clear t = empty_index

  unfoldable pub clone : NanoflannAdapter Float → NanoflannAdapter Float
  clone t = record {
    points = t.points;
    kdtree = none;
    needs_rebuild = true;
    max_half_diag = t.max_half_diag;
    id_to_index = t.id_to_index;
  }

  unfoldable pub ensure_built : NanoflannAdapter Float → NanoflannAdapter Float
  ensure_built t =
      if t.needs_rebuild
      then elim t.points [
        | [] ↦ record t { needs_rebuild = false }
        | s ∷ rest ↦ record t { kdtree = some (s ∷ rest); needs_rebuild = false }
      ]
      else t

  -- The ids of the points at the indices found.
  unfoldable pub ids_at : List (Slot Float) → List ℕ → List ℤ
  ids_at points [] = []
  ids_at points (i ∷ rest) =
      let others = ids_at points rest in
      elim (get_elem? points i) [ none ↦ others | some s ↦ s.id ∷ others ]

  module _ (radius_search : List (Slot Float) → Float → Float → Float → List ℕ) where
    unfoldable pub query : Box S → NanoflannAdapter Float → List ℤ
    query bbox t =
        let dx = sub bbox.max_x bbox.min_x in
        let dy = sub bbox.max_y bbox.min_y in
        let radius = add (mul (sqrt (add (mul dx dx) (mul dy dy))) half) t.max_half_diag in
        elim t.kdtree [
          | none ↦ []
          | some tree ↦ ids_at t.points (
              radius_search tree (mul (add bbox.min_x bbox.max_x) half)
                (mul (add bbox.min_y bbox.max_y) half) (mul radius radius))
        ]
