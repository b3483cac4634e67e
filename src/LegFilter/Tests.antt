-- ===== src/LegFilter/Tests.antt =====
-- An obstacle that moves by 4 in each report, on numbers in place of `double`.
use rises.Base.{
  if◌then◌else◌, ◌==◌, ◌≡◌, refl, ℕ, ◌+◌, ◌-◌, ◌*◌, ◌/◌, false, List, [], ◌∷◌, ltb, leb, arith,
}
use rises.LegFilter.{Doubles, LegTrack, Obstacle, Config, LegFilterNode}
use rises.LegFilter.Motion.{run_reports, skip_sum, run_reports-displacement}

-- Lengths on one axis.
abbrev naturals : Doubles
naturals = record {
  Double = ℕ;
  zero = 0;
  tenth = 0;
  two = 2;
  add = λ a b. a + b;
  sub = λ a b. a - b;
  mul = λ a b. a * b;
  div = λ a b. a / b;
  sqrt = λ a. if a == 16 then 4 else if a == 64 then 8 else 0;
  less = ltb;
  leq = leb;
}

abbrev config : Config ℕ
config = record {
  min_width = 1;
  max_width = 5;
  min_velocity = 3;
  stationary_timeout = 10;
  eviction_timeout = 10;
  min_observations = 2;
  camera_match_radius = 1;
  camera_stale_sec = 5;
  enable_camera_fusion = false;
}

abbrev leg : ℕ → Obstacle ℕ
leg x = record { id = 7; width = 2; x = x; y = 0 }

abbrev walk : List (ℕ × Obstacle ℕ)
walk = (3, leg 8) ∷ (4, leg 12) ∷ []

abbrev unused : LegFilterNode ℕ
unused = record { tracks = []; confirmed_humans = []; bodies_tracked = [] }

never_stale : (clock : ℕ) → ltb 10 (clock - clock) ≡ false
never_stale clock = ground arith

-- The obstacle has moved by 12 in all, and the sum is 16.
walk_sum : skip_sum naturals 0 ((1, leg 0) ∷ (2, leg 4) ∷ walk) ≡ 16
walk_sum = refl

run_reports-displacement_example :
    (track : LegTrack ℕ) × ((run_reports naturals config
        ((1, leg 0) ∷ (2, leg 4) ∷ walk)
        unused).tracks
      ≡ (7, track) ∷ [])
    × (track.displacement_sum ≡ skip_sum naturals 0 ((1, leg 0) ∷ (2, leg 4) ∷ walk))
    × (track.observation_count ≡ 4)
run_reports-displacement_example =
    run_reports-displacement naturals config 7 (1, leg 0) (2, leg 4) walk unused never_stale
      ((refl, refl, refl), ((refl, refl, refl), ((refl, refl, refl), ((refl, refl, refl), tt))))
      refl
