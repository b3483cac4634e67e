-- ===== src/Tasks/Examples.antt =====
-- src/rises_task_examples: task_examples_node.cpp, and `callSkillBlocking` of task_runner.hpp.
-- The world is the list of the goals sent so far. What becomes of a goal is a function of them, an
-- argument. The paths that the code builds from constants are arguments too, and the mock steps of
-- navigation, which log and sleep, leave the world alone.
use rises.Base.{
  Bool, true, false, not, List, [], ◌∷◌, ◌++◌, Option, none, some, if◌then◌else◌, Text,
}
use rises.Base.Int.{pos}
use rises.Base.Strings.{bytes}
use rises.SkillBridge.{
  Skill, validate_path, set_area_state, set_safety_radius, get_area_state, get_map_info,
  set_geofence_enabled, Goal, Result, Verdict, Report, AreaState, MapInfo, Switched,
}
use rises.Tasks.{TaskStep, TaskRunner, cancel}

-- `rclcpp_action::ResultCode`.
pub data ResultCode : Type 0 where
  unknown succeeded canceled aborted : ResultCode

-- What a client of a skill meets.
pub data Outcome (k : Skill) : Type 0 where
  no_server goal_late rejected result_late : Outcome k
  wrapped : ResultCode → Result k → Outcome k

pub record Sent : Type 0 where
  pub skill : Skill
  pub goal : Goal skill

abbrev pub Skills : Type 0
Skills = List Sent → (k : Skill) → Goal k → Outcome k

abbrev pub send : (k : Skill) → Goal k → List Sent → List Sent
send k goal w = w ++ record { skill = k; goal = goal } ∷ []

abbrev pub is_succeeded : ResultCode → Bool
is_succeeded succeeded = true
is_succeeded unknown = false
is_succeeded canceled = false
is_succeeded aborted = false

unfoldable pub received : {k : Skill} → Outcome k → Option (Result k)
received no_server = none
received goal_late = none
received rejected = none
received result_late = none
received (wrapped code result) = if is_succeeded code then some result else none

abbrev pub was_sent : {k : Skill} → Outcome k → Bool
was_sent no_server = false
was_sent goal_late = true
was_sent rejected = true
was_sent result_late = true
was_sent (wrapped code result) = true

-- The result, or `none` for `nullptr`.
unfoldable pub call_skill_blocking :
    Skills → (k : Skill) → Goal k → List Sent → Option (Result k) × List Sent
unfolding received
call_skill_blocking skills k goal w =
    let met = skills w k goal in (received met, if was_sent met then send k goal w else w)

-- The tests of the results.
abbrev pub contours_are_loaded : Option MapInfo → Bool
contours_are_loaded none = false
contours_are_loaded (some info) = info.contours_loaded

abbrev pub path_was_checked : Option Verdict → Bool
path_was_checked none = false
path_was_checked (some verdict) = true

abbrev pub area_is_free : Option AreaState → Bool
area_is_free none = false
area_is_free (some area) = not area.locked

abbrev pub was_done : Option Report → Bool
was_done none = false
was_done (some report) = report.success

abbrev pub was_switched : Option Switched → Bool
was_switched none = false
was_switched (some switched) = switched.success

abbrev pub done_anyway : Option Report → Bool
done_anyway result = true

-- A step, and whether `cancel` is called before it.
abbrev pub Planned : Type 0
Planned = Bool → TaskStep (List Sent)

module _ (skills : Skills) where
  -- A step that calls a skill and tests the result.
  abbrev pub skill_step : Text → (k : Skill) → Goal k → (Option (Result k) → Bool) → Planned
  skill_step name k goal test cancel_called = record {
    name = name;
    execute = λ w. let call = call_skill_blocking skills k goal w in (test call.0, call.1);
    cancel_called = cancel_called;
  }

  abbrev pub mock_step : Text → Planned
  mock_step name cancel_called = record {
    name = name;
    execute = λ w. (true, w);
    cancel_called = cancel_called;
  }

  unfoldable pub build_safe_navigation_task : Text → List Planned
  build_safe_navigation_task path =
      skill_step (bytes "get_map_info") get_map_info tt contours_are_loaded
      ∷ skill_step (bytes "validate_path") validate_path path path_was_checked
      ∷ mock_step (bytes "navigate")
      ∷ []

  -- The area of the corridor, and the bits of 0.3f and 0.5f.
  unfoldable pub build_corridor_crossing_task : Text → List Planned
  build_corridor_crossing_task path =
      skill_step (bytes "check_corridor") get_area_state (pos 1) area_is_free
      ∷ skill_step (bytes "lock_corridor") set_area_state (record { area_id = pos 1; lock = true })
          was_done
      ∷ skill_step (bytes "tighten_safety") set_safety_radius 1050253722 was_done
      ∷ skill_step (bytes "validate_path") validate_path path path_was_checked
      ∷ mock_step (bytes "navigate_corridor")
      ∷ skill_step (bytes "restore_safety") set_safety_radius 1056964608 done_anyway
      ∷ skill_step (bytes "unlock_corridor") set_area_state
          (record { area_id = pos 1; lock = false }) done_anyway
      ∷ []

  unfoldable pub build_maintenance_mode_task : List Planned
  build_maintenance_mode_task =
      skill_step (bytes "disable_geofence") set_geofence_enabled false was_switched
      ∷ mock_step (bytes "navigate_home")
      ∷ mock_step (bytes "wait_maintenance")
      ∷ skill_step (bytes "enable_geofence") set_geofence_enabled true was_switched
      ∷ skill_step (bytes "verify_health") get_map_info tt contours_are_loaded
      ∷ []

-- The calls of `cancel` that a run meets.
abbrev pub scheduled : List Planned → List Bool → List (TaskStep (List Sent))
scheduled [] calls = []
scheduled (p ∷ ps) [] = p false ∷ scheduled ps []
scheduled (p ∷ ps) (c ∷ calls) = p c ∷ scheduled ps calls

-- `std_srvs::srv::Trigger::Response`.
pub record TriggerResponse : Type 0 where
  pub success : Bool
  pub message : Text

-- The response, and the thread that is started, if any. A previous thread is joined first.
pub launch_task :
    Text
    → List (TaskStep (List Sent))
    → TaskRunner
    → TriggerResponse × Option (Text × List (TaskStep (List Sent)))
launch_task mission_type steps runner =
    if runner.is_active
    then (
      record { success = false; message = bytes "A task is already running. Call ~/cancel first." },
      none,
    )
    else (
      record { success = true; message = bytes "Task '" ++ (mission_type ++ bytes "' started") },
      some (mission_type, steps),
    )

pub handle_cancel : TaskRunner → TriggerResponse × TaskRunner
unfolding cancel
handle_cancel runner =
    if runner.is_active
    then (record { success = true; message = bytes "Cancel requested" }, cancel runner)
    else (record { success = false; message = bytes "No task running" }, runner)
