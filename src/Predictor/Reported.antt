-- ===== src/Predictor/Reported.antt =====
-- heatmap_predictor_node.cpp: the track of an obstacle that a report names.
use rises.Base.{
  ℕ, ◌≡◌, refl, ◌∙◌, ap, Bool, true, false, List, [], ◌∷◌, ◌++◌, some, if◌then◌else◌, ◌==◌, ==_iff,
  keep, All, arith,
}
use rises.Base.Dict.{lookup, lookup-update, or_new, nat_eq}
use rises.Predictor.{
  Numbers, PredictorConfig, TrackedObstacle, Tracks, observe_at, new_track, update_track,
  update_tracks, evict_tracks, obstacle_report_callback,
}
use rises.Predictor.Heatmap.{last_observation}
use rises.Predictor.Tracking.{observe_at-latest}

lookup-keep :
    {V : Type 0} (p : ℕ × V → Bool) (id : ℕ) (m : List (ℕ × V)) (v : V)
    → lookup id m ≡ some v
    → p (id, v) ≡ true
    → lookup id (keep p m) ≡ some v
unfolding lookup
lookup-keep p id [] v h kept = absurd (ground arith)
lookup-keep p id ((j, w) ∷ m) v h kept =
    let rest = lookup-keep p id m v in ground (arith, ==_iff j id)

module _ (N : Numbers) (c : PredictorConfig N.Double) where
  open N use {Double, sub, less}

  update_tracks-append :
      (t : Double) (before rest : List (ℕ × Double × Double)) (tracks : Tracks N c)
      → update_tracks N c t (before ++ rest) tracks
        ≡ update_tracks N c t rest (update_tracks N c t before tracks)
  unfolding update_tracks
  update_tracks-append t [] rest tracks = refl
  update_tracks-append t ((id, x, y) ∷ before) rest tracks =
      update_tracks-append t before rest (update_track N c id x y t tracks)

  update_tracks-others :
      (t : Double) (id : ℕ) (later : List (ℕ × Double × Double)) (tracks : Tracks N c)
      → All (λ o. o.0 == id ≡ false) later
      → lookup id (update_tracks N c t later tracks) ≡ lookup id tracks
  unfolding update_tracks update_track
  update_tracks-others t id [] tracks h = refl
  update_tracks-others t id ((j, x, y) ∷ later) tracks (other, h) =
      update_tracks-others t id later (update_track N c j x y t tracks) h
      ∙ lookup-update j id (new_track N c) (observe_at N c x y t) tracks
      ∙ rw other refl

  -- What a track shows of a report: its time, and the position as the last observation.
  abbrev pub Shows : Double → Double → Double → TrackedObstacle Double → Type 0
  Shows t x y track =
      (last_observation N c track.history ≡ some (record { x = x; y = y; timestamp_sec = t }))
      × (track.last_seen_sec ≡ t)

  -- Where the time of a report is not before the start of its window, and no time is older than
  -- itself by more than the timeout, an obstacle of the report has a track afterwards, which was not
  -- evicted, was last seen at the time of the report and ends with the last position that the report
  -- gives for the id.
  pub obstacle_report_callback-Shows :
      (t : Double) (id : ℕ) (x y : Double) (before later : List (ℕ × Double × Double))
      → (tracks : Tracks N c) → less t (sub t c.observation_window_sec) ≡ false
      → less c.eviction_timeout_sec (sub t t) ≡ false
      → All (λ o. o.0 == id ≡ false) later
      → (track : TrackedObstacle Double) × (lookup id
            (obstacle_report_callback N c t (before ++ (id, x, y) ∷ later) tracks)
          ≡ some track)
        × Shows t x y track
  unfolding obstacle_report_callback evict_tracks update_tracks update_track
  obstacle_report_callback-Shows t id x y before later tracks window fresh others =
      let old = update_tracks N c t before tracks in
      let track = observe_at N c x y t (or_new (new_track N c) (lookup id old)) in
      let shows = observe_at-latest N c x y t (or_new (new_track N c) (lookup id old)) window in
      let found : lookup id (update_tracks N c t (before ++ (id, x, y) ∷ later) tracks)
          ≡ some track =
        ap (lookup id) (update_tracks-append t before ((id, x, y) ∷ later) tracks)
        ∙ update_tracks-others t id later (update_track N c id x y t old) others
        ∙ lookup-update id id (new_track N c) (observe_at N c x y t) old
        ∙ ap (λ b. if b then some track else lookup id old) ((==_iff id id).1 refl) in
      (track, lookup-keep _ id _ track found (rw (shows.1, fresh) refl), shows)
