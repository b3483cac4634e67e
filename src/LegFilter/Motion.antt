-- ===== src/LegFilter/Motion.antt =====
-- What a track's displacement sums up.
use rises.Base.{
  ℕ, suc, ◌+◌, ◌<◌, ◌≡◌, refl, ap, ◌∙◌, true, false, List, [], ◌∷◌, length, All, ==_iff, arith,
}
use rises.Base.Dict.{update, nat_eq}
use rises.LegFilter.{
  Doubles, LegTrack, Obstacle, Config, LegFilterNode, blank, distance, observe, is_older,
  evict_stale_tracks, track_all, obstacle_callback,
}

module _ (F : Doubles) where
  open F use {Double, zero, add, less}

  -- Reports of one obstacle each, at their times.
  abbrev pub run_reports :
      Config Double → List (Double × Obstacle Double) → LegFilterNode Double → LegFilterNode Double
  run_reports c [] n = n
  run_reports c ((t, obs) ∷ rest) n = run_reports c rest (obstacle_callback F c t (obs ∷ []) n)

  -- The distances between each position and the next but one.
  abbrev pub skip_sum : Double → List (Double × Obstacle Double) → Double
  skip_sum sum [] = sum
  skip_sum sum (a ∷ []) = sum
  skip_sum sum (a ∷ b ∷ []) = sum
  skip_sum sum (a ∷ b ∷ d ∷ rest) =
      skip_sum (add sum (distance F d.1.x d.1.y a.1.x a.1.y)) (b ∷ d ∷ rest)

  -- The report is on the obstacle, which is as wide as a leg.
  abbrev pub IsLeg : Config Double → ℕ → Double × Obstacle Double → Type 0
  IsLeg c id r =
      (r.1.id ≡ id) × (less r.1.width c.min_width ≡ false) × (less c.max_width r.1.width ≡ false)

  -- A report on a track keeps it, and no other track is there.
  callback-one :
      (c : Config Double) (id : ℕ) (t : Double) (obs : Obstacle Double) (track : LegTrack Double)
      (n : LegFilterNode Double)
      → ((clock : Double) → is_older F clock clock c.eviction_timeout ≡ false)
      → obs.id ≡ id
      → n.tracks ≡ (id, track) ∷ []
      → (obstacle_callback F c t (obs ∷ []) n).tracks ≡ (id, observe F c t obs track) ∷ []
  unfolding obstacle_callback evict_stale_tracks track_all update observe
  callback-one c id t obs track n fresh same e = rw e (ground (arith, ==_iff id obs.id, fresh t))

  callback-none :
      (c : Config Double) (t : Double) (obs : Obstacle Double) (n : LegFilterNode Double)
      → ((clock : Double) → is_older F clock clock c.eviction_timeout ≡ false)
      → n.tracks ≡ []
      → (obstacle_callback F c t (obs ∷ []) n).tracks ≡ (obs.id, observe F c t obs (blank F)) ∷ []
  unfolding obstacle_callback evict_stale_tracks track_all update observe
  callback-none c t obs n fresh e = rw e (ground (arith, fresh t))

  -- The track has been at a, and then at b.
  record Moving (a b : Double × Obstacle Double) (track : LegTrack Double) : Type 0 where
    prev_known : track.has_prev ≡ true
    prev_x_ok : track.prev_x ≡ a.1.x
    prev_y_ok : track.prev_y ≡ a.1.y
    last_x_ok : track.last_x ≡ b.1.x
    last_y_ok : track.last_y ≡ b.1.y
    counted : 0 < track.observation_count

  observe-Moving :
      (c : Config Double) (id : ℕ) (a b d : Double × Obstacle Double) (track : LegTrack Double)
      → IsLeg c id d
      → Moving a b track
      → Moving b d (observe F c d.0 d.1 track)
        × ((observe F c d.0 d.1 track).displacement_sum
            ≡ add track.displacement_sum (distance F d.1.x d.1.y a.1.x a.1.y))
        × ((observe F c d.0 d.1 track).observation_count ≡ suc track.observation_count)
  unfolding observe
  observe-Moving c id a b d track leg m =
      let count = m.counted in
      rw (leg.1, leg.2)
        (
          record {
            prev_known = ground arith;
            prev_x_ok = m.last_x_ok;
            prev_y_ok = m.last_y_ok;
            last_x_ok = refl;
            last_y_ok = refl;
            counted = omega arith;
          },
          rw (m.prev_known, m.prev_x_ok, m.prev_y_ok) refl,
          refl,
        )

  abbrev Sums : ℕ → ℕ → Double → LegFilterNode Double → Type 0
  Sums id count sum n =
      (track : LegTrack Double) × (n.tracks ≡ (id, track) ∷ [])
      × (track.displacement_sum ≡ sum)
      × (track.observation_count ≡ count)

  run-Moving :
      (c : Config Double) (id : ℕ) (rs : List (Double × Obstacle Double))
      (a b : Double × Obstacle Double) (track : LegTrack Double) (n : LegFilterNode Double)
      → ((clock : Double) → is_older F clock clock c.eviction_timeout ≡ false)
      → All (IsLeg c id) rs
      → n.tracks ≡ (id, track) ∷ []
      → Moving a b track
      → Sums id
          (track.observation_count + length rs)
          (skip_sum track.displacement_sum (a ∷ b ∷ rs))
          (run_reports c rs n)
  run-Moving c id [] a b track n fresh legs e m = (track, e, refl, omega arith)
  run-Moving c id ((t, obs) ∷ rs) a b track n fresh legs e m =
      let (m2, sum, count) = observe-Moving c id a b (t, obs) track legs.0 m in
      let (last, found, total, number) =
        run-Moving c id rs b (t, obs) (observe F c t obs track)
          (obstacle_callback F c t (obs ∷ []) n) fresh legs.1
          (callback-one c id t obs track n fresh legs.0.0 e) m2 in
      (
        last,
        found,
        total ∙ ap (λ (s : Double). skip_sum s (b ∷ (t, obs) ∷ rs)) sum,
        omega (arith, number, count),
      )

  first_two :
      (c : Config Double) (id : ℕ) (a b : Double × Obstacle Double)
      → IsLeg c id a
      → IsLeg c id b
      → let track = observe F c b.0 b.1 (observe F c a.0 a.1 (blank F)) in
        Moving a b track × (track.displacement_sum ≡ zero) × (track.observation_count ≡ 2)
  unfolding observe
  first_two c id a b leg leg2 =
      rw (leg.1, leg.2, leg2.1, leg2.2)
        (
          record {
            prev_known = refl;
            prev_x_ok = refl;
            prev_y_ok = refl;
            last_x_ok = refl;
            last_y_ok = refl;
            counted = omega arith;
          },
          refl,
          refl,
        )

  -- Where no clock is older than itself by the eviction timeout: from a node without tracks, after two
  -- reports or more, each of one obstacle with the same id that passes the width gate, there is its
  -- track alone, with one observation for each report, and its displacement sums the distances between each position and the next but one: the first step counts
  -- for nothing, and each later distance spans two steps.
  pub run_reports-displacement :
      (c : Config Double) (id : ℕ) (a b : Double × Obstacle Double)
      (rs : List (Double × Obstacle Double)) (n : LegFilterNode Double)
      → ((clock : Double) → is_older F clock clock c.eviction_timeout ≡ false)
      → All (IsLeg c id) (a ∷ b ∷ rs)
      → n.tracks ≡ []
      → Sums id (2 + length rs) (skip_sum zero (a ∷ b ∷ rs)) (run_reports c (a ∷ b ∷ rs) n)
  run_reports-displacement c id (t, obs) (t2, obs2) rs n fresh legs none_yet =
      let (m, still, two_seen) = first_two c id (t, obs) (t2, obs2) legs.0 legs.1.0 in
      let start : (obstacle_callback F c t (obs ∷ []) n).tracks
          ≡ (id, observe F c t obs (blank F)) ∷ [] =
        callback-none c t obs n fresh none_yet
        ∙ ap (λ (k : ℕ). (k, observe F c t obs (blank F)) ∷ []) legs.0.0 in
      let second =
        callback-one c id t2 obs2 (observe F c t obs (blank F))
          (obstacle_callback F c t (obs ∷ []) n) fresh legs.1.0.0 start in
      let (last, found, total, number) =
        run-Moving c id rs (t, obs) (t2, obs2) _ _ fresh legs.1.1 second m in
      (
        last,
        found,
        total ∙ ap (λ (s : Double). skip_sum s ((t, obs) ∷ (t2, obs2) ∷ rs)) still,
        omega (arith, number, two_seen),
      )
