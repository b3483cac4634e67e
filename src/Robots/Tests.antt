-- ===== src/Robots/Tests.antt =====
-- Two robots on a line; an obstacle is a number, and overlaps a robot at the same one.
use rises.Base.{ℕ, ◌≡◌, Bool, ◌&&◌, List, [], ◌∷◌, any, ◌==◌, arith}
use rises.Base.Dict.{text_keys}
use rises.Base.Strings.{bytes}
use rises.Robots.{RobotTracker, is_obstacle_robot, Change, moves, shapes, leaves}
use rises.Robots.Freshness.{is_recent, is_obstacle_robot-recent}

abbrev touches : ℕ → ℕ → ℕ → Bool
touches obstacle position footprint = obstacle == position

abbrev fleet : RobotTracker ℕ ℕ
fleet =
    (bytes "a", record { pose = record { position = 3; timestamp_ns = 900 }; footprint = 1 })
    ∷ (bytes "b", record { pose = record { position = 5; timestamp_ns = 1001 }; footprint = 1 })
    ∷ []

is_obstacle_robot-recent_example :
    is_obstacle_robot touches 1000 5 1 fleet
    ≡ any
        (λ entry.
          is_recent 1000 1 entry.1.pose.timestamp_ns
          && touches 5 entry.1.pose.position entry.1.footprint)
        fleet
is_obstacle_robot-recent_example =
    is_obstacle_robot-recent touches 1000 5 1 fleet (omega arith) (omega arith)
      (omega arith, (omega arith, tt))

abbrev day : List (Change ℕ ℕ)
day =
    moves (bytes "a") (record { position = 1; timestamp_ns = 7 })
    ∷ shapes (bytes "b") 4
    ∷ leaves (bytes "a")
    ∷ shapes (bytes "a") 2
    ∷ []
