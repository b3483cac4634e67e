-- ===== src/Robots/Freshness.antt =====
-- Which robots an obstacle is compared with.
use rises.Base.{ℕ, ◌-◌, ◌*◌, ◌<◌, ◌≡◌, refl, Bool, not, ◌&&◌, [], ◌∷◌, ltb, leb, any, All, arith}
use rises.Robots.{RobotTracker, is_stale, is_obstacle_robot}

-- The pose is set, is not from the future, and is at most so old.
abbrev pub is_recent : ℕ → ℕ → ℕ → Bool
is_recent now_ns max_age_ms timestamp_ns =
    ltb 0 timestamp_ns
    && (leb timestamp_ns now_ns && leb (now_ns - timestamp_ns) (max_age_ms * 1000000))

-- Half of the range of `uint64_t`, which a signed clock does not leave.
abbrev pub int64_limit : ℕ
int64_limit = 9223372036854775808

stale_test :
    (now_ns max_age_ms t : ℕ)
    → now_ns < int64_limit
    → t < int64_limit
    → max_age_ms * 1000000 < int64_limit
    → (ltb 0 t && not (is_stale now_ns max_age_ms t)) ≡ is_recent now_ns max_age_ms t
unfolding is_stale
stale_test now_ns max_age_ms t a b c = ground arith

module _ {Obstacle Position Footprint : Type 0}
    (overlaps : Obstacle → Position → Footprint → Bool) where
  -- For times and ages below 2 ^ 63 nanoseconds, an obstacle is a robot exactly when it overlaps one
  -- whose pose is set, at most so old, and not stamped later than now: a pose stamped even a
  -- nanosecond ahead of the clock is not looked at.
  pub is_obstacle_robot-recent :
      (now_ns : ℕ) (obstacle : Obstacle) (max_age_ms : ℕ) (robots : RobotTracker Position Footprint)
      → now_ns < int64_limit
      → max_age_ms * 1000000 < int64_limit
      → All (λ entry. entry.1.pose.timestamp_ns < int64_limit) robots
      → is_obstacle_robot overlaps now_ns obstacle max_age_ms robots
        ≡ any
            (λ entry.
              is_recent now_ns max_age_ms entry.1.pose.timestamp_ns
              && overlaps obstacle entry.1.pose.position entry.1.footprint)
            robots
  unfolding is_obstacle_robot
  is_obstacle_robot-recent now_ns obstacle max_age_ms [] a b h = refl
  is_obstacle_robot-recent now_ns obstacle max_age_ms ((robot_id, info) ∷ rest) a b h = ground (
    arith,
    is_obstacle_robot-recent now_ns obstacle max_age_ms rest a b h.1,
    stale_test now_ns max_age_ms info.pose.timestamp_ns a h.0 b,
  )
