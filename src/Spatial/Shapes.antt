-- ===== src/Spatial/Shapes.antt =====
-- src/geofence/spatial_node: bounding_box.hpp, and the shapes that the map stores.
-- Floating-point numbers and their operations are parameters, and so are the geometry variant with
-- its bounding box and the contours.
use rises.Base.{Bool, ◌&&◌}

pub record BoundingBox (Float : Type 0) : Type 0 where
  pub min_x : Float
  pub min_y : Float
  pub max_x : Float
  pub max_y : Float

pub record Shapes : Type 1 where
  pub Float : Type 0
  pub zero_f : Float
  pub half : Float
  pub add : Float → Float → Float
  pub sub : Float → Float → Float
  pub mul : Float → Float → Float
  pub sqrt : Float → Float
  pub leq : Float → Float → Bool
  pub less : Float → Float → Bool
  pub is_finite : Float → Bool
  pub Double : Type 0
  pub to_float : Double → Float
  pub to_double : Float → Double
  pub less_double : Double → Double → Bool
  pub is_finite_double : Double → Bool
  pub Geometry : Type 0
  pub get_bounding_box : Geometry → BoundingBox Float
  pub Contours : Type 0

module _ (S : Shapes) where
  open S use {Float, leq, is_finite}

  abbrev pub Box : Type 0
  Box = BoundingBox Float

  abbrev pub is_valid : Box → Bool
  is_valid b = leq b.min_x b.max_x && leq b.min_y b.max_y

  abbrev pub has_finite_corners : Box → Bool
  has_finite_corners b =
      is_finite b.min_x && (is_finite b.min_y && (is_finite b.max_x && is_finite b.max_y))
