-- ===== src/Robots.antt =====
-- src/geofence/common: robot_tracking.hpp and robot_tracking.cpp, the class RobotTracker and the
-- policy that filters robots out of the obstacles.
-- A position is x, y and theta; `overlaps` is `checkOverlap`, floating-point geometry. Each operation
-- holds the tracker's mutex. The clock's nanoseconds are an argument.
pub mod Freshness
pub mod Table
mod Tests
use rises.Base.{
  ℕ, ◌+◌, ◌*◌, Bool, true, false, not, List, [], ◌∷◌, Option, none, some, if◌then◌else◌, length,
  ltb, Text,
}
use rises.Base.Words.{u64, sub_u64}
use rises.Base.Dict.{update, erase, text_keys}

pub record RobotPose (Position : Type 0) : Type 0 where
  pub position : Position
  pub timestamp_ns : ℕ

pub record RobotInfo (Position Footprint : Type 0) : Type 0 where
  pub pose : RobotPose Position
  pub footprint : Footprint

abbrev pub RobotTracker : Type 0 → Type 0 → Type 0
RobotTracker Position Footprint = List (Text × RobotInfo Position Footprint)

abbrev pub is_valid : {Position : Type 0} → RobotPose Position → Bool
is_valid pose = ltb 0 pose.timestamp_ns

-- The pose is older than the limit, in the arithmetic of `uint64_t`.
pub is_stale : ℕ → ℕ → ℕ → Bool
is_stale now_ns max_age_ms timestamp_ns =
    ltb (u64 (max_age_ms * 1000000)) (sub_u64 now_ns timestamp_ns)

-- `home` and `outline` are the values of a pose and a footprint that are not set yet.
module _ {Position Footprint : Type 0} (home : Position) (outline : Footprint) where
  abbrev pub fresh_info : RobotInfo Position Footprint
  fresh_info = record { pose = record { position = home; timestamp_ns = 0 }; footprint = outline }

  pub update_robot_pose :
      Text → RobotPose Position → RobotTracker Position Footprint → RobotTracker Position Footprint
  update_robot_pose robot_id pose robots =
      update robot_id fresh_info (λ info. record info { pose = pose }) robots

  pub set_robot_footprint :
      Text → Footprint → RobotTracker Position Footprint → RobotTracker Position Footprint
  set_robot_footprint robot_id footprint robots =
      update robot_id fresh_info (λ info. record info { footprint = footprint }) robots

pub remove_robot :
    {Position Footprint : Type 0}
    → Text
    → RobotTracker Position Footprint
    → RobotTracker Position Footprint
remove_robot robot_id robots = erase robot_id robots

module _ {Obstacle Position Footprint : Type 0}
    (overlaps : Obstacle → Position → Footprint → Bool) where
  pub is_obstacle_robot : ℕ → Obstacle → ℕ → RobotTracker Position Footprint → Bool
  unfolding is_stale
  is_obstacle_robot now_ns obstacle max_age_ms [] = false
  is_obstacle_robot now_ns obstacle max_age_ms ((robot_id, info) ∷ rest) =
      let later = is_obstacle_robot now_ns obstacle max_age_ms rest in
      if not (is_valid info.pose)
      then later
      else if is_stale now_ns max_age_ms info.pose.timestamp_ns
      then later
      else if overlaps obstacle info.pose.position info.footprint
      then true
      else later

  -- `filterRobots`, for a policy that may not be initialized; the clock is read for each obstacle.
  pub filter_robots :
      Option (RobotTracker Position Footprint) → ℕ → List (ℕ × Obstacle) → List Obstacle
  unfolding is_obstacle_robot
  filter_robots tracker max_age_ms [] = []
  filter_robots none max_age_ms ((now_ns, obstacle) ∷ rest) =
      obstacle ∷ filter_robots none max_age_ms rest
  filter_robots (some robots) max_age_ms ((now_ns, obstacle) ∷ rest) =
      let others = filter_robots (some robots) max_age_ms rest in
      if not (is_obstacle_robot now_ns obstacle max_age_ms robots)
      then obstacle ∷ others
      else others

-- A change of the table.
pub data Change (Position Footprint : Type 0) : Type 0 where
  moves : Text → RobotPose Position → Change Position Footprint
  shapes : Text → Footprint → Change Position Footprint
  leaves : Text → Change Position Footprint
  forgets : Change Position Footprint

module _ {Position Footprint : Type 0} (home : Position) (outline : Footprint) where
  pub step :
      Change Position Footprint → RobotTracker Position Footprint → RobotTracker Position Footprint
  unfolding update_robot_pose set_robot_footprint remove_robot
  step (moves robot_id pose) robots = update_robot_pose home outline robot_id pose robots
  step (shapes robot_id footprint) robots =
      set_robot_footprint home outline robot_id footprint robots
  step (leaves robot_id) robots = remove_robot robot_id robots
  step forgets robots = []

  pub run :
      List (Change Position Footprint)
      → RobotTracker Position Footprint
      → RobotTracker Position Footprint
  run [] robots = robots
  run (c ∷ rest) robots = run rest (step c robots)
