-- ===== src/Predictor/Tests.antt =====
-- Whole numbers for `double` and `float`: a walk over a grid of four by three cells.
use rises.Base.{ℕ, ◌+◌, ◌-◌, ◌*◌, ◌≡◌, List, [], ◌∷◌, some, length, ltb, arith}
use rises.Base.Int.{ℤ, pos}
use rises.Predictor.{Numbers, PredictorConfig}
use rises.Predictor.Heatmap.{publish_heatmap}
use rises.Predictor.Tracking.{TimedReport, run_reports}
use rises.Predictor.Published.{run_reports-heatmap}

abbrev whole : Numbers
whole = record {
  Double = ℕ;
  of_ℕ = λ n. n;
  tiny = 1;
  add = ◌+◌;
  sub = ◌-◌;
  mul = ◌*◌;
  div = λ a b. a;
  sqrt = λ a. a;
  exp_neg = λ a. 4 - a;
  abs = λ a. a;
  less = ltb;
  round_int = λ a. pos a;
  ceil_int = λ a. pos 1;
  Float = ℕ;
  zero_f = 0;
  one_f = 1;
  low_f = 0;
  hundred_f = 100;
  to_float = λ a. a;
  add_f = ◌+◌;
  mul_f = ◌*◌;
  div_f = λ a b. a;
  less_f = ltb;
  to_int8 = λ a. pos a;
}

abbrev small : PredictorConfig ℕ
small = record {
  observation_window_sec = 3;
  prediction_horizon_sec = 2;
  prediction_step_sec = 1;
  prediction_steps = 2;
  eviction_timeout_sec = 2;
  grid_resolution = 1;
  grid_origin_x = 0;
  grid_origin_y = 0;
  gaussian_sigma = 1;
  min_observations = 1;
  grid_cols = 4;
  grid_rows = 3;
}

abbrev walk : List (TimedReport whole small)
walk = (5, (1, 0, 0) ∷ (2, 3, 2) ∷ []) ∷ (6, (1, 1, 0) ∷ []) ∷ []

run_reports-heatmap_example :
    (cells : List ℤ) × (publish_heatmap whole small (run_reports whole small walk []) ≡ some cells)
    × (length cells ≡ 3 * 4)
run_reports-heatmap_example = run_reports-heatmap whole small (λ t. ground arith) (omega arith) walk
