-- ===== src/Predictor/Tracking.antt =====
-- heatmap_predictor_node.cpp: the tracks after any number of reports.
use rises.Base.{
  ℕ, ◌≡◌, refl, sym, ◌∙◌, false, List, [], ◌∷◌, ◌++◌, some, length, leb, All, All-keep, arith,
  Bool-cases, inl, inr, ap,
}
use rises.Base.Dict.{update, nat_eq}
use rises.Predictor.{
  Numbers, PredictorConfig, Observation, TrackedObstacle, Tracks, trim, estimate_velocity,
  observe_at, new_track, update_track, update_tracks, evict_tracks, obstacle_report_callback,
}
use rises.Predictor.Heatmap.{last_observation}

module _ (N : Numbers) (c : PredictorConfig N.Double) where
  open N use {Double, sub, less, abs, tiny, of_ℕ, mul, add, div, sqrt}

  -- The last observation of the track stands for the time of its last report.
  abbrev pub HasLatest : TrackedObstacle Double → Type 0
  HasLatest track =
      (latest : Observation Double) × (last_observation N c track.history ≡ some latest)
      × (latest.timestamp_sec ≡ track.last_seen_sec)

  abbrev pub Current : Tracks N c → Type 0
  Current tracks = All (λ entry. HasLatest entry.1) tracks

  abbrev pub TimedReport : Type 0
  TimedReport = Double × List (ℕ × Double × Double)

  unfoldable pub run_reports : List TimedReport → Tracks N c → Tracks N c
  run_reports [] tracks = tracks
  run_reports ((timestamp_sec, obstacles) ∷ rest) tracks =
      run_reports rest (obstacle_report_callback N c timestamp_sec obstacles tracks)

  last-snoc :
      (o : Observation Double) (xs : List (Observation Double)) (seen : Observation Double)
      → last_observation N c (o ∷ (xs ++ seen ∷ [])) ≡ some seen
  last-snoc o [] seen = refl
  last-snoc o (x ∷ xs) seen = last-snoc x xs seen

  last-trim :
      (cutoff : Double) (xs : List (Observation Double)) (seen : Observation Double)
      → less seen.timestamp_sec cutoff ≡ false
      → last_observation N c (trim N c cutoff (xs ++ seen ∷ [])) ≡ some seen
  unfolding trim
  last-trim cutoff [] seen h = rw h refl
  last-trim cutoff (x ∷ xs) seen h = elim (Bool-cases (less x.timestamp_sec cutoff)) [
    | inl e ↦ rw e (last-trim cutoff xs seen h)
    | inr e ↦ rw e (last-snoc x xs seen)
  ]

  estimate_velocity-history :
      (track : TrackedObstacle Double)
      → ((estimate_velocity N c track).history ≡ track.history)
        × ((estimate_velocity N c track).last_seen_sec ≡ track.last_seen_sec)
  unfolding estimate_velocity
  estimate_velocity-history track = ground arith

  pub observe_at-latest :
      (x y timestamp_sec : Double) (track : TrackedObstacle Double)
      → less timestamp_sec (sub timestamp_sec c.observation_window_sec) ≡ false
      → (last_observation N c (observe_at N c x y timestamp_sec track).history
          ≡ some (record { x = x; y = y; timestamp_sec = timestamp_sec }))
        × ((observe_at N c x y timestamp_sec track).last_seen_sec ≡ timestamp_sec)
  unfolding observe_at
  observe_at-latest x y timestamp_sec track h =
      let seen : Observation Double = record { x = x; y = y; timestamp_sec = timestamp_sec } in
      let cutoff = sub timestamp_sec c.observation_window_sec in
      let trimmed : TrackedObstacle Double = record track {
        history = trim N c cutoff (track.history ++ seen ∷ []);
        last_seen_sec = timestamp_sec;
      } in
      let (same_history, same_time) = estimate_velocity-history trimmed in
      let ends = last-trim cutoff track.history seen h in
      elim (Bool-cases (leb c.min_observations (length trimmed.history))) [
        | inl e ↦ (rw e (ap (last_observation N c) same_history ∙ ends), rw e same_time)
        | inr e ↦ (rw e ends, rw e refl)
      ]

  observe_at-HasLatest :
      (x y timestamp_sec : Double) (track : TrackedObstacle Double)
      → less timestamp_sec (sub timestamp_sec c.observation_window_sec) ≡ false
      → HasLatest (observe_at N c x y timestamp_sec track)
  observe_at-HasLatest x y timestamp_sec track h =
      let (ends, time) = observe_at-latest x y timestamp_sec track h in
      (record { x = x; y = y; timestamp_sec = timestamp_sec }, ends, sym time)

  update-Current :
      (id : ℕ) (d : TrackedObstacle Double) (f : TrackedObstacle Double → TrackedObstacle Double)
      → ((track : TrackedObstacle Double) → HasLatest (f track))
      → (tracks : Tracks N c) → Current tracks
      → Current (update id d f tracks)
  unfolding update
  update-Current id d f new [] h = (new d, tt)
  update-Current id d f new ((j, track) ∷ rest) h =
      let later = update-Current id d f new rest h.1 in let seen = new track in ground arith

  update_tracks-Current :
      (timestamp_sec : Double) (obstacles : List (ℕ × Double × Double)) (tracks : Tracks N c)
      → less timestamp_sec (sub timestamp_sec c.observation_window_sec) ≡ false
      → Current tracks
      → Current (update_tracks N c timestamp_sec obstacles tracks)
  unfolding update_tracks update_track
  update_tracks-Current timestamp_sec [] tracks h current = current
  update_tracks-Current timestamp_sec ((id, x, y) ∷ rest) tracks h current =
      update_tracks-Current timestamp_sec rest (update_track N c id x y timestamp_sec tracks) h (
        update-Current id (new_track N c) (observe_at N c x y timestamp_sec)
          (λ track. observe_at-HasLatest x y timestamp_sec track h) tracks current)

  pub run_reports-Current :
      ((t : Double) → less t (sub t c.observation_window_sec) ≡ false)
      → (reports : List TimedReport) (tracks : Tracks N c) → Current tracks
      → Current (run_reports reports tracks)
  unfolding run_reports obstacle_report_callback evict_tracks
  run_reports-Current window [] tracks current = current
  run_reports-Current window ((timestamp_sec, obstacles) ∷ rest) tracks current =
      run_reports-Current window rest (obstacle_report_callback N c timestamp_sec obstacles tracks)
        (All-keep (λ entry. HasLatest entry.1) _ _
          (update_tracks-Current timestamp_sec obstacles tracks (window timestamp_sec) current))
