-- ===== src/Predictor/Heatmap.antt =====
-- `publishHeatmap` of heatmap_predictor_node.cpp: the tracks that are shown, the prediction of each,
-- and the cells of the message. `none` where a history has no last observation, an index is out of
-- range or the number of cells is negative. The order of the tracks is that in which they are visited.
use rises.Base.{
  ℕ, zero, suc, ◌*◌, List, [], ◌∷◌, Option, none, some, if◌then◌else◌, length, replicate, map, ltb,
}
use rises.Base.Int.{ℤ, pos, negsuc, to_int}
use rises.Predictor.{Numbers, PredictorConfig, Observation, Tracks}
use rises.Predictor.Stamping.{stamp_gaussian}

pub record TrackSnapshot (Double : Type 0) : Type 0 where
  pub latest_x : Double
  pub latest_y : Double
  pub velocity_x : Double
  pub velocity_y : Double

module _ (N : Numbers) (c : PredictorConfig N.Double) where
  open N use {
    Double, of_ℕ, add, sub, mul, div, Float, zero_f, one_f, low_f, hundred_f, to_float, mul_f,
    div_f, less_f, to_int8,
  }

  -- `history.back()`.
  abbrev pub last_observation : List (Observation Double) → Option (Observation Double)
  last_observation [] = none
  last_observation (o ∷ []) = some o
  last_observation (_ ∷ o ∷ rest) = last_observation (o ∷ rest)

  unfoldable pub snapshots : Tracks N c → Option (List (TrackSnapshot Double))
  snapshots [] = some []
  snapshots ((id, track) ∷ rest) =
      let later = snapshots rest in
      if ltb (length track.history) c.min_observations
      then later
      else elim (last_observation track.history) [
        | none ↦ none
        | some latest ↦ elim later [
          | none ↦ none
          | some shown ↦ some (
              record {
                latest_x = latest.x;
                latest_y = latest.y;
                velocity_x = track.velocity_x;
                velocity_y = track.velocity_y;
              }
              ∷ shown)
        ]
      ]

  -- `std::max`.
  abbrev pub max_float : Float → Float → Float
  max_float a b = if less_f a b then b else a

  -- The loop over the steps of the prediction, with the number left.
  unfoldable pub stamp_steps : TrackSnapshot Double → ℕ → ℕ → List Float → Option (List Float)
  stamp_steps snap zero step grid = some grid
  stamp_steps snap (suc left) step grid =
      let dt = mul (of_ℕ step) c.prediction_step_sec in
      let predicted_x = add snap.latest_x (mul snap.velocity_x dt) in
      let predicted_y = add snap.latest_y (mul snap.velocity_y dt) in
      let confidence = to_float (sub (of_ℕ 1) (div dt c.prediction_horizon_sec)) in
      elim (stamp_gaussian N c predicted_x predicted_y (max_float low_f confidence) grid) [
        | none ↦ none
        | some next ↦ stamp_steps snap left (suc step) next
      ]

  unfoldable pub stamp_snapshots : List (TrackSnapshot Double) → List Float → Option (List Float)
  stamp_snapshots [] grid = some grid
  stamp_snapshots (snap ∷ rest) grid =
      elim (stamp_gaussian N c snap.latest_x snap.latest_y one_f grid) [
        | none ↦ none
        | some next ↦ elim (stamp_steps snap c.prediction_steps 1 next) [
          | none ↦ none
          | some last ↦ stamp_snapshots rest last
        ]
      ]

  abbrev pub max_val : Float → List Float → Float
  max_val top [] = top
  max_val top (val ∷ rest) = max_val (max_float top val) rest

  unfoldable pub heat_data : ℕ → List Float → List ℤ
  heat_data total_cells probability_grid =
      let top = max_val zero_f probability_grid in
      let inv_max = div_f hundred_f top in
      if less_f zero_f top
      then map (λ val. to_int8 (mul_f val inv_max)) probability_grid
      else replicate total_cells (pos 0)

  -- `static_cast<std::size_t>` of the number of cells; a negative one is more than a vector holds.
  abbrev pub size_of : ℤ → Option ℕ
  size_of (pos n) = some n
  size_of (negsuc n) = none

  abbrev pub stamped : Option (List (TrackSnapshot Double)) → ℕ → Option (List ℤ)
  stamped none total_cells = none
  stamped (some shown) total_cells = elim (stamp_snapshots shown (replicate total_cells zero_f)) [
    | none ↦ none
    | some grid ↦ some (heat_data total_cells grid)
  ]

  unfoldable pub publish_heatmap : Tracks N c → Option (List ℤ)
  publish_heatmap tracks = elim (size_of (to_int (pos (c.grid_rows * c.grid_cols)))) [
    | none ↦ none
    | some total_cells ↦ stamped (snapshots tracks) total_cells
  ]
