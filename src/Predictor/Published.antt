-- ===== src/Predictor/Published.antt =====
-- heatmap_predictor_node.cpp: a heatmap that is published after reports.
use rises.Base.{
  ℕ, zero, suc, ◌*◌, ◌<◌, ◌≡◌, refl, ◌∙◌, ap, false, List, [], ◌∷◌, some, length, replicate, map,
  ltb, Bool-cases, inl, inr, arith,
}
use rises.Base.Int.{ℤ, pos, to_int, to_int_fits}
use rises.Predictor.{Numbers, PredictorConfig, Tracks}
use rises.Predictor.Stamping.{Kept, stamp_gaussian-Kept}
use rises.Predictor.Heatmap.{
  TrackSnapshot, snapshots, max_float, max_val, stamp_steps, stamp_snapshots, heat_data, stamped,
  publish_heatmap,
}
use rises.Predictor.Tracking.{Current, TimedReport, run_reports, run_reports-Current}

length-replicate : {A : Type 0} (n : ℕ) (a : A) → length (replicate n a) ≡ n
length-replicate zero a = refl
length-replicate (suc n) a = ap suc (length-replicate n a)

length-map : {A B : Type 0} (f : A → B) (xs : List A) → length (map f xs) ≡ length xs
length-map f [] = refl
length-map f (x ∷ xs) = ap suc (length-map f xs)

module _ (N : Numbers) (c : PredictorConfig N.Double) where
  open N use {
    Double, of_ℕ, add, sub, mul, div, less, Float, zero_f, one_f, low_f, hundred_f, to_float, mul_f,
    div_f, less_f, to_int8,
  }

  snapshots-total :
      (tracks : Tracks N c)
      → Current N c tracks
      → (shown : List (TrackSnapshot Double)) × (snapshots N c tracks ≡ some shown)
  unfolding snapshots
  snapshots-total [] h = ([], refl)
  snapshots-total ((id, track) ∷ rest) ((latest, ends, time), current) =
      let (shown, e) = snapshots-total rest current in
      elim (Bool-cases (ltb (length track.history) c.min_observations)) [
        | inl few ↦ (shown, rw few e)
        | inr enough ↦
            let snap : TrackSnapshot Double = record {
              latest_x = latest.x;
              latest_y = latest.y;
              velocity_x = track.velocity_x;
              velocity_y = track.velocity_y;
            } in
            (snap ∷ shown, rw (snapshots, enough, ends, e) refl)
      ]

  stamp_steps-Kept :
      (snap : TrackSnapshot Double) (left step : ℕ) (grid : List Float)
      → c.grid_rows * c.grid_cols < 2147483648
      → length grid ≡ c.grid_rows * c.grid_cols
      → Kept N c grid (stamp_steps N c snap left step grid)
  unfolding stamp_steps
  stamp_steps-Kept snap zero step grid small size = (grid, refl, refl)
  stamp_steps-Kept snap (suc left) step grid small size =
      let dt = mul (of_ℕ step) c.prediction_step_sec in
      let confidence = to_float (sub (of_ℕ 1) (div dt c.prediction_horizon_sec)) in
      let (next, e, same) =
        stamp_gaussian-Kept N c (add snap.latest_x (mul snap.velocity_x dt))
          (add snap.latest_y (mul snap.velocity_y dt)) (max_float N c low_f confidence) grid small
          size in
      let (out, f, kept) = stamp_steps-Kept snap left (suc step) next small (same ∙ size) in
      (out, rw (stamp_steps, e) f, kept ∙ same)

  stamp_snapshots-Kept :
      (shown : List (TrackSnapshot Double)) (grid : List Float)
      → c.grid_rows * c.grid_cols < 2147483648
      → length grid ≡ c.grid_rows * c.grid_cols
      → Kept N c grid (stamp_snapshots N c shown grid)
  unfolding stamp_snapshots
  stamp_snapshots-Kept [] grid small size = (grid, refl, refl)
  stamp_snapshots-Kept (snap ∷ rest) grid small size =
      let (next, e, same) =
        stamp_gaussian-Kept N c snap.latest_x snap.latest_y one_f grid small size in
      let (last, f, steps) = stamp_steps-Kept snap c.prediction_steps 1 next small (same ∙ size) in
      let (out, g, kept) = stamp_snapshots-Kept rest last small (steps ∙ same ∙ size) in
      (out, rw (stamp_snapshots, e, f) g, kept ∙ steps ∙ same)

  length-heat_data :
      (grid : List Float)
      → length grid ≡ c.grid_rows * c.grid_cols
      → length (heat_data N c (c.grid_rows * c.grid_cols) grid) ≡ c.grid_rows * c.grid_cols
  unfolding heat_data
  length-heat_data grid size = elim (Bool-cases (less_f zero_f (max_val N c zero_f grid))) [
    | inl e ↦ rw e (length-map _ grid ∙ size)
    | inr e ↦ rw e (length-replicate (c.grid_rows * c.grid_cols) (pos 0))
  ]

  -- Where no time is before the start of its own window and the grid has fewer than 2 ^ 31 cells, a
  -- heatmap that is published after any reports writes within the grid, reads the last observation of
  -- non-empty histories only, and has a value for each cell of the grid. Sums of `int` values that
  -- are out of range are taken to wrap around.
  pub run_reports-heatmap :
      ((t : Double) → less t (sub t c.observation_window_sec) ≡ false)
      → c.grid_rows * c.grid_cols < 2147483648
      → (reports : List (TimedReport N c))
      → (cells : List ℤ) × (publish_heatmap N c (run_reports N c reports []) ≡ some cells)
        × (length cells ≡ c.grid_rows * c.grid_cols)
  unfolding publish_heatmap
  run_reports-heatmap window small reports =
      let total = c.grid_rows * c.grid_cols in
      let fits : to_int (pos total) ≡ pos total = to_int_fits (pos total) small (omega arith) in
      let (shown, e) =
        snapshots-total (run_reports N c reports [])
          (run_reports-Current N c window reports [] tt) in
      let size = length-replicate (c.grid_rows * c.grid_cols) zero_f in
      let (grid, f, same) = stamp_snapshots-Kept shown _ small size in
      (
        heat_data N c (c.grid_rows * c.grid_cols) grid,
        rw (publish_heatmap, fits, e, stamped, f) refl,
        length-heat_data grid (same ∙ size),
      )
