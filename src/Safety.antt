-- ===== src/Safety.antt =====
-- src/safety: safety.hpp and safety.cpp, the node that halts the fleet and gates paths.
-- Times are nanoseconds of the node's clock and `node_timeout_sec` is not negative. A text that
-- the node publishes is the constructor with its parts. Each topic is the list of what was
-- published on it, oldest first, and `requests` holds the calls of `async_send_request`.
pub mod Halt
pub mod Health
pub mod Overlap
pub mod Paths
mod Tests
use rises.Base.{
  ℕ, ◌+◌, ◌-◌, ◌*◌, ◌/◌, Bool, true, false, not, ◌&&◌, ◌||◌, List, [], ◌∷◌, ◌++◌, Option, none,
  some, ltb, ◌==◌, if◌then◌else◌, Text, length, get_elem?,
}
use rises.Base.Dict.{update, text_keys}
use rises.Base.Int.{ℤ, pos, negsuc, pos_part, ltb_ℤ, leb_ℤ, int32, to_int}

-- `diagnostic_msgs::msg::DiagnosticStatus`: the levels OK, WARN, ERROR are 0, 1, 2.
pub record DiagnosticStatus : Type 0 where
  pub level : ℕ
  pub name : Text
  pub message : Text

abbrev pub error_level : ℕ
error_level = 2

pub record NodeHealth : Type 0 where
  pub level : ℕ
  pub last_seen : ℕ

-- Why the system is halted or resumed.
pub data Reason : Type 0 where
  node_error : Text → Text → Reason
  unresponsive : Text → ℕ → Reason
  service_unavailable : Reason
  nodes_healthy : Reason

pub data Response : Type 0 where
  halted : Reason → Response
  resumed : Reason → Response
  alerted : ℕ → Response
  rejected_halted : Response
  rejected_unavailable : Response
  overlap_warning : Response
  blocked : Response
  allowed : Response

-- The parts of `nav_msgs::msg::OccupancyGrid` that are read.
pub record OccupancyGrid : Type 0 where
  pub width : ℕ
  pub height : ℕ
  pub cells : List ℤ

-- `Obstacle` and `Pose` are messages, which the node passes on.
pub record Safety (Obstacle Pose : Type 0) : Type 0 where
  pub monitored_nodes : List (Text × NodeHealth)
  pub node_timeout : ℕ
  pub system_halted : Bool
  pub latest_heatmap : Option OccupancyGrid
  pub heatmap_overlap_threshold : ℤ
  pub alert_topic : List (List Obstacle)
  pub halt_topic : List Bool
  pub response_topic : List Response
  pub validated_path_topic : List (List Pose)
  pub requests : List (List Pose)

-- `status.name.substr(0, status.name.find(':'))`
pub node_name : Text → Text
node_name [] = []
node_name (c ∷ name) = if c == b':' then [] else c ∷ node_name name

-- A node that has been silent for longer than the timeout.
pub is_silent : ℕ → ℕ → NodeHealth → Bool
is_silent now timeout health = ltb timeout (now - health.last_seen)

module _ {Obstacle Pose : Type 0} where
  -- The constructor, with the parameters' values.
  pub start : ℕ → ℤ → Safety Obstacle Pose
  start node_timeout threshold = record {
    monitored_nodes = [];
    node_timeout = node_timeout;
    system_halted = false;
    latest_heatmap = none;
    heatmap_overlap_threshold = threshold;
    alert_topic = [];
    halt_topic = [];
    response_topic = [];
    validated_path_topic = [];
    requests = [];
  }

  pub respond : Response → Safety Obstacle Pose → Safety Obstacle Pose
  respond r s = record s { response_topic = s.response_topic ++ r ∷ [] }

  pub halt_system : Reason → Safety Obstacle Pose → Safety Obstacle Pose
  unfolding respond
  halt_system reason s =
      if s.system_halted
      then s
      else respond (halted reason)
          (record s { system_halted = true; halt_topic = s.halt_topic ++ true ∷ [] })

  pub resume_system : Reason → Safety Obstacle Pose → Safety Obstacle Pose
  unfolding respond
  resume_system reason s =
      if s.system_halted
      then respond (resumed reason)
          (record s { system_halted = false; halt_topic = s.halt_topic ++ false ∷ [] })
      else s

  -- One round of the loop of `diagnosticsCallback`.
  pub on_status : ℕ → DiagnosticStatus → Safety Obstacle Pose → Safety Obstacle Pose
  on_status now status s =
      let name = node_name status.name in
      let health : NodeHealth = record { level = status.level; last_seen = now } in
      let seen = record s {
        monitored_nodes = update name health (λ _. health) s.monitored_nodes;
      } in
      if status.level == error_level
      then halt_system (node_error name status.message) seen
      else seen

  pub diagnostics_callback : ℕ → List DiagnosticStatus → Safety Obstacle Pose → Safety Obstacle Pose
  diagnostics_callback now [] s = s
  diagnostics_callback now (status ∷ rest) s =
      diagnostics_callback now rest (on_status now status s)

  -- The loop of `healthCheckCallback`, with `all_healthy`.
  pub check_nodes :
      ℕ → List (Text × NodeHealth) → Bool → Safety Obstacle Pose → Bool × Safety Obstacle Pose
  check_nodes now [] all_healthy s = (all_healthy, s)
  check_nodes now ((name, health) ∷ rest) all_healthy s =
      let silent = is_silent now s.node_timeout health in
      check_nodes now rest (if silent then false else all_healthy) (
        if silent
        then halt_system (unresponsive name ((now - health.last_seen) / 1000000000)) s
        else s)

  pub health_check_callback : ℕ → Safety Obstacle Pose → Safety Obstacle Pose
  health_check_callback now s =
      let (all_healthy, t) = check_nodes now s.monitored_nodes true s in
      if all_healthy && t.system_halted then resume_system nodes_healthy t else t

  pub detected_obstacles_callback : List Obstacle → Safety Obstacle Pose → Safety Obstacle Pose
  unfolding respond
  detected_obstacles_callback obstacles s =
      respond (alerted (length obstacles))
        (record s { alert_topic = s.alert_topic ++ obstacles ∷ [] })

  pub heatmap_callback : OccupancyGrid → Safety Obstacle Pose → Safety Obstacle Pose
  heatmap_callback grid s = record s { latest_heatmap = some grid }

  -- `pathCallback` after the test of the heatmap. `service` says whether the service was
  -- found in time.
  pub request_validation : Bool → List Pose → Safety Obstacle Pose → Safety Obstacle Pose
  request_validation service path s =
      if service
      then record s { requests = s.requests ++ path ∷ [] }
      else halt_system service_unavailable (respond rejected_unavailable s)

  -- The answer to a request: the callback given to `async_send_request`.
  pub validation_answer : Bool → List Pose → Safety Obstacle Pose → Safety Obstacle Pose
  unfolding respond
  validation_answer is_blocked path s =
      if is_blocked
      then respond blocked s
      else respond allowed (record s { validated_path_topic = s.validated_path_topic ++ path ∷ [] })

-- `grid.data[row * width + col] >= threshold`, for a cell that is in range; `none` is a read
-- outside the data.
abbrev pub reaches : ℤ → Option ℤ → Option Bool
reaches threshold none = none
reaches threshold (some value) = some (leb_ℤ threshold value)

-- `data[static_cast<std::size_t>(idx)]`, where a negative index is out of range.
abbrev pub cell_at : List ℤ → ℤ → Option ℤ
cell_at cells (pos idx) = get_elem? cells idx
cell_at cells (negsuc idx) = none

pub cell_hot : OccupancyGrid → ℤ → ℤ × ℤ → Option Bool
cell_hot grid threshold (col, row) =
    let width = int32 grid.width in
    let height = int32 grid.height in
    let idx = to_int (pos (pos_part row * grid.width + pos_part col)) in
    if ltb_ℤ col (pos 0) || not (ltb_ℤ col width) || ltb_ℤ row (pos 0) || not (ltb_ℤ row height)
    then some false
    else reaches threshold (cell_at grid.cells idx)

-- `cell_of` is the column and row of a pose on a grid: a floating-point division followed by
-- `static_cast<int>`.
module _ {Pose : Type 0} (cell_of : OccupancyGrid → Pose → ℤ × ℤ) where
  -- The loop of `isPathOverlappingPrediction`.
  pub poses_overlap : OccupancyGrid → ℤ → List Pose → Option Bool
  poses_overlap grid threshold [] = some false
  poses_overlap grid threshold (pose ∷ rest) = elim (cell_hot grid threshold (cell_of grid pose)) [
    | none ↦ none
    | some true ↦ some true
    | some false ↦ poses_overlap grid threshold rest
  ]

  pub is_path_overlapping_prediction : Option OccupancyGrid → ℤ → List Pose → Option Bool
  is_path_overlapping_prediction none threshold poses = some false
  is_path_overlapping_prediction (some grid) threshold poses = poses_overlap grid threshold poses

-- A callback that an executor runs. `incoming_path` is told whether the service was found,
-- `answer` whether the path is blocked and which path was asked about.
pub data Event (Obstacle Pose : Type 0) : Type 0 where
  diagnostics : ℕ → List DiagnosticStatus → Event Obstacle Pose
  health_check : ℕ → Event Obstacle Pose
  obstacles : List Obstacle → Event Obstacle Pose
  heatmap : OccupancyGrid → Event Obstacle Pose
  incoming_path : Bool → List Pose → Event Obstacle Pose
  answer : Bool → List Pose → Event Obstacle Pose

module _ {Obstacle Pose : Type 0} (cell_of : OccupancyGrid → Pose → ℤ × ℤ) where
  -- `none` where the test of the heatmap reads outside its data.
  pub path_callback : Bool → List Pose → Safety Obstacle Pose → Option (Safety Obstacle Pose)
  unfolding respond request_validation
  path_callback service path s =
      if s.system_halted
      then some (respond rejected_halted s)
      else elim (is_path_overlapping_prediction cell_of s.latest_heatmap s.heatmap_overlap_threshold
          path) [
            | none ↦ none
            | some true ↦ some (request_validation service path (respond overlap_warning s))
            | some false ↦ some (request_validation service path s)
          ]

  pub step : Event Obstacle Pose → Safety Obstacle Pose → Option (Safety Obstacle Pose)
  step (diagnostics now statuses) s = some (diagnostics_callback now statuses s)
  step (health_check now) s = some (health_check_callback now s)
  step (obstacles seen) s = some (detected_obstacles_callback seen s)
  step (heatmap grid) s = some (heatmap_callback grid s)
  step (incoming_path service poses) s = path_callback service poses s
  step (answer is_blocked poses) s = some (validation_answer is_blocked poses s)

  pub run : List (Event Obstacle Pose) → Safety Obstacle Pose → Option (Safety Obstacle Pose)
  run [] s = some s
  run (e ∷ rest) s = elim (step e s) [ none ↦ none | some t ↦ run rest t ]
