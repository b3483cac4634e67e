-- ===== src/Predictor.antt =====
-- src/obstacle_heatmap_predictor: heatmap_predictor_node.cpp.
-- `double` and `float` are parameters with their operations, the conversions to `int` among them.
-- The tracks are held in one locked section by each of the two callbacks, so that a run is a
-- sequence of callbacks. Cell numbers are `int` values, which wrap around.
pub mod Stamping
pub mod Heatmap
pub mod Tracking
pub mod Published
pub mod Reported
mod Tests
use rises.Base.{
  ℕ, zero, suc, ◌+◌, ◌-◌, ◌*◌, Bool, true, false, not, List, [], ◌∷◌, ◌++◌, Option, none, some,
  if◌then◌else◌, length, get_elem?, set, replicate, keep, map, leb, ltb, min,
}
use rises.Base.Int.{ℤ, pos, negsuc, pos_part, neg_part, leb_ℤ, min_ℤ, max_ℤ, sub_ℕ, to_int}
use rises.Base.Dict.{nat_eq, lookup, update}

pub record Numbers : Type 1 where
  pub Double : Type 0
  pub of_ℕ : ℕ → Double
  pub tiny : Double
  pub add : Double → Double → Double
  pub sub : Double → Double → Double
  pub mul : Double → Double → Double
  pub div : Double → Double → Double
  pub sqrt : Double → Double
  pub exp_neg : Double → Double
  pub abs : Double → Double
  pub less : Double → Double → Bool
  pub round_int : Double → ℤ
  pub ceil_int : Double → ℤ
  pub Float : Type 0
  pub zero_f : Float
  pub one_f : Float
  pub low_f : Float
  pub hundred_f : Float
  pub to_float : Double → Float
  pub add_f : Float → Float → Float
  pub mul_f : Float → Float → Float
  pub div_f : Float → Float → Float
  pub less_f : Float → Float → Bool
  pub to_int8 : Float → ℤ

pub record Observation (Double : Type 0) : Type 0 where
  pub x : Double
  pub y : Double
  pub timestamp_sec : Double

pub record TrackedObstacle (Double : Type 0) : Type 0 where
  pub history : List (Observation Double)
  pub velocity_x : Double
  pub velocity_y : Double
  pub last_seen_sec : Double

-- `prediction_steps` is the horizon divided by the step, rounded toward zero.
pub record PredictorConfig (Double : Type 0) : Type 0 where
  pub observation_window_sec : Double
  pub prediction_horizon_sec : Double
  pub prediction_step_sec : Double
  pub prediction_steps : ℕ
  pub eviction_timeout_sec : Double
  pub grid_resolution : Double
  pub grid_origin_x : Double
  pub grid_origin_y : Double
  pub gaussian_sigma : Double
  pub min_observations : ℕ
  pub grid_cols : ℕ
  pub grid_rows : ℕ

-- a + b and a - b, of `int` values.
unfoldable pub add_int : ℤ → ℤ → ℤ
add_int a b = to_int (sub_ℕ (pos_part a + pos_part b) (neg_part a + neg_part b))

unfoldable pub sub_int : ℤ → ℤ → ℤ
sub_int a b = to_int (sub_ℕ (pos_part a + neg_part b) (neg_part a + pos_part b))

module _ (N : Numbers) (c : PredictorConfig N.Double) where
  open N use {
    Double, of_ℕ, tiny, add, sub, mul, div, sqrt, exp_neg, abs, less, round_int, ceil_int, Float,
    zero_f, one_f, low_f, hundred_f, to_float, add_f, mul_f, div_f, less_f, to_int8,
  }

  -- The observations from the first one on that is not before the cutoff.
  unfoldable pub trim : Double → List (Observation Double) → List (Observation Double)
  trim cutoff [] = []
  trim cutoff (o ∷ rest) =
      let later = trim cutoff rest in if less o.timestamp_sec cutoff then later else o ∷ rest

  -- A sum over the observations.
  abbrev pub sum_of : (Observation Double → Double) → List (Observation Double) → Double → Double
  sum_of f [] total = total
  sum_of f (o ∷ rest) total = sum_of f rest (add total (f o))

  -- The time of the first observation; an empty history has none, and is not asked for where every
  -- observation is in its own window.
  abbrev pub first_time : List (Observation Double) → Double
  first_time [] = of_ℕ 0
  first_time (o ∷ rest) = o.timestamp_sec

  unfoldable pub estimate_velocity : TrackedObstacle Double → TrackedObstacle Double
  estimate_velocity track =
      let t0 = first_time track.history in
      let n = of_ℕ (length track.history) in
      let sum : (Observation Double → Double) → Double = λ f. sum_of f track.history (of_ℕ 0) in
      let sum_dt = sum (λ o. sub o.timestamp_sec t0) in
      let sum_dt2 = sum (λ o. mul (sub o.timestamp_sec t0) (sub o.timestamp_sec t0)) in
      let sum_x = sum (λ o. o.x) in
      let sum_y = sum (λ o. o.y) in
      let sum_dt_x = sum (λ o. mul (sub o.timestamp_sec t0) o.x) in
      let sum_dt_y = sum (λ o. mul (sub o.timestamp_sec t0) o.y) in
      let denom = sub (mul n sum_dt2) (mul sum_dt sum_dt) in
      let vx = div (sub (mul n sum_dt_x) (mul sum_dt sum_x)) denom in
      let vy = div (sub (mul n sum_dt_y) (mul sum_dt sum_y)) denom in
      let speed = sqrt (add (mul vx vx) (mul vy vy)) in
      if less (abs denom) tiny
      then record track { velocity_x = of_ℕ 0; velocity_y = of_ℕ 0 }
      else if less (of_ℕ 2) speed
      then record track {
        velocity_x = mul vx (div (of_ℕ 2) speed);
        velocity_y = mul vy (div (of_ℕ 2) speed);
      }
      else record track { velocity_x = vx; velocity_y = vy }

  -- `updateTrack`, on the track.
  unfoldable pub observe_at :
      Double → Double → Double → TrackedObstacle Double → TrackedObstacle Double
  observe_at x y timestamp_sec track =
      let seen : Observation Double = record { x = x; y = y; timestamp_sec = timestamp_sec } in
      let cutoff = sub timestamp_sec c.observation_window_sec in
      let trimmed = record track {
        history = trim cutoff (track.history ++ seen ∷ []);
        last_seen_sec = timestamp_sec;
      } in
      if leb c.min_observations (length trimmed.history) then estimate_velocity trimmed else trimmed

  abbrev pub new_track : TrackedObstacle Double
  new_track = record {
    history = [];
    velocity_x = of_ℕ 0;
    velocity_y = of_ℕ 0;
    last_seen_sec = of_ℕ 0;
  }

  abbrev pub Tracks : Type 0
  Tracks = List (ℕ × TrackedObstacle Double)

  unfoldable pub update_track : ℕ → Double → Double → Double → Tracks → Tracks
  update_track id x y timestamp_sec tracks =
      update id new_track (observe_at x y timestamp_sec) tracks

  -- The loop over the unmatched obstacles: an id and a position each.
  unfoldable pub update_tracks : Double → List (ℕ × Double × Double) → Tracks → Tracks
  update_tracks timestamp_sec [] tracks = tracks
  update_tracks timestamp_sec ((id, x, y) ∷ rest) tracks =
      update_tracks timestamp_sec rest (update_track id x y timestamp_sec tracks)

  unfoldable pub evict_tracks : Double → Tracks → Tracks
  evict_tracks now tracks =
      keep (λ entry. not (less c.eviction_timeout_sec (sub now entry.1.last_seen_sec))) tracks

  unfoldable pub obstacle_report_callback : Double → List (ℕ × Double × Double) → Tracks → Tracks
  obstacle_report_callback timestamp_sec obstacles tracks =
      evict_tracks timestamp_sec (update_tracks timestamp_sec obstacles tracks)
