-- ===== src/Mission.antt =====
-- src/rises_mission_controller: mission_controller_node.hpp and mission_controller_node.cpp.
-- Two threads: the callback of `/intents`, and the thread of `executeMission`. Each load and store
-- of `mission_active_` that the other can see between is an action of its own, and an
-- interleaving is a list of actions. A mission's id is its time stamp, and the texts of
-- `publishStatus` are constructors.
pub mod Skills
pub mod Dispatch
pub mod Listener
pub mod Reports
pub mod Stop
mod Tests
use rises.Base.{
  ℕ, ◌+◌, Bool, true, false, ◌&&◌, List, [], ◌∷◌, ◌++◌, Option, none, some, if◌then◌else◌, length,
  drop, Text,
}
use rises.Base.Words.{u8}
use rises.Base.Strings.{bytes, find, is_found, skip_to_digit, stoll}
use Skills.{Task, get_area_state, set_area_state, get_map_info, get_safety_radius, Reply, execute}

-- `hri_actions_msgs::msg::Intent`: the names that the controller compares with, and its data.
pub data IntentName : Type 0 where
  start_activity stop_activity other_intent : IntentName

pub record Intent : Type 0 where
  pub intent : IntentName
  pub payload : Text

pub data MissionType : Type 0 where
  area_access_control update_geofence_map : MissionType

pub data Status : Type 0 where
  pending active succeeded failed cancelled : Status

-- `current_task`, which is empty at the end of a mission, and `message`.
pub data Message : Type 0 where
  mission_started : Message
  executing : Task → Message
  mission_cancelled : Message
  task_failed : Task → Message
  mission_completed : Message

pub record MissionStatus : Type 0 where
  pub mission_id : ℕ
  pub mission_type : MissionType
  pub status : Status
  pub current_task : Option Task
  pub total_tasks : ℕ
  pub completed_tasks : ℕ
  pub message : Message

pub record Mission : Type 0 where
  pub id : ℕ
  pub type : MissionType
  pub tasks : List Task

-- Where the callback stands: outside; past the test of `mission_active_`; waiting in `join`.
pub data Callback : Type 0 where
  free : Callback
  accepted : Intent → Callback
  joining : Mission → Callback

-- Where the mission thread stands: not there, or ended; created; at the test of the loop, with
-- the tasks left and the number completed; inside `task.execute()`.
pub data Worker : Type 0 where
  ended : Worker
  created : Mission → Worker
  testing : Mission → List Task → ℕ → Worker
  working : Mission → Task → List Task → ℕ → Worker

pub record Controller : Type 0 where
  pub mission_active : Bool
  pub active_mission_id : Option ℕ
  pub mission_status : List MissionStatus
  pub callback : Callback
  pub worker : Worker

pub start : Controller
start = record {
  mission_active = false;
  active_mission_id = none;
  mission_status = [];
  callback = free;
  worker = ended;
}

-- `data.find("area_id")`, or else `data.find("goal")`.
pub area_position : Text → Option ℕ
area_position payload = elim (find (bytes "area_id") payload) [
  | some i ↦ some i
  | none ↦ find (bytes "goal") payload
]

-- The number that `buildAreaControlMission` reads; `none` where `std::stoll` throws.
abbrev pub area_at : Text → Option ℕ → Option ℕ
area_at payload none = some 0
area_at payload (some i) = elim (skip_to_digit (drop i payload)) [
  | [] ↦ some 0
  | c ∷ rest ↦ stoll (c ∷ rest)
]

pub area_id : Text → Option ℕ
unfolding area_position
area_id payload = area_at payload (area_position payload)

pub build_area_control_mission : Text → Bool → Option (List Task)
unfolding area_id
build_area_control_mission payload lock = elim (area_id payload) [
  | none ↦ none
  | some id ↦ some (get_area_state id ∷ set_area_state id lock ∷ [])
]

pub build_map_update_mission : List Task
build_map_update_mission = get_map_info ∷ get_safety_radius ∷ []

-- What an intent asks for.
pub data Request : Type 0 where
  ignored : Request
  stops : Request
  throws : Request
  starts : MissionType → List Task → Request

abbrev pub started : MissionType → Option (List Task) → Request
started type none = throws
started type (some tasks) = starts type tasks

-- The choice of `intentCallback` among missions.
pub dispatch : IntentName → Text → Request
unfolding build_area_control_mission build_map_update_mission
dispatch start_activity payload =
    if is_found (find (bytes "lock_area") payload)
    then started area_access_control (build_area_control_mission payload true)
    else if is_found (find (bytes "unlock_area") payload)
    then started area_access_control (build_area_control_mission payload false)
    else if is_found (find (bytes "update_map") payload)
    then starts update_geofence_map build_map_update_mission
    else ignored
dispatch stop_activity payload = stops
dispatch other_intent payload = ignored

-- The first test of `intentCallback`: while a mission is active every intent is rejected.
pub receive : Intent → Callback → Controller → Controller
receive i free c = if c.mission_active then c else record c { callback = accepted i }
receive i _ c = c

-- The rest of `intentCallback`, up to the thread. An exception leaves the callback here; what
-- becomes of the process is the executor's.
pub respond : Request → ℕ → Controller → Controller
respond ignored now c = record c { callback = free }
respond throws now c = record c { callback = free }
respond stops now c = record c { mission_active = false; callback = free }
respond (starts type []) now c = record c { callback = free }
respond (starts type (t ∷ ts)) now c = record c {
  callback = joining (record { id = now; type = type; tasks = t ∷ ts });
}

pub handle : ℕ → Callback → Controller → Controller
unfolding dispatch respond
handle now (accepted i) c = respond (dispatch i.intent i.payload) now c
handle now _ c = c

-- `join` returns once the last mission thread has ended; then the new thread is made.
pub spawn : Callback → Worker → Controller → Controller
spawn (joining m) ended c = record c { callback = free; worker = created m }
spawn _ _ c = c

abbrev pub publish : Mission → Status → Option Task → ℕ → Message → Controller → Controller
publish m status task completed message c = record c {
  mission_status =
      c.mission_status
      ++ record {
        mission_id = m.id;
        mission_type = m.type;
        status = status;
        current_task = task;
        total_tasks = u8 (length m.tasks);
        completed_tasks = completed;
        message = message;
      }
        ∷ [];
}

abbrev pub front : List Task → Option Task
front [] = none
front (t ∷ ts) = some t

-- `executeMission` up to its loop.
pub begin_mission : Worker → Controller → Controller
begin_mission (created m) c = publish m active (front m.tasks) 0 mission_started (record c {
  mission_active = true;
  active_mission_id = some m.id;
  worker = testing m m.tasks 0;
})
begin_mission _ c = c

-- The loop's head: the end of the mission, or the test of `mission_active_` before a task.
pub next_task : Worker → Controller → Controller
next_task (testing m [] completed) c =
    publish m succeeded none completed mission_completed
      (record c { mission_active = false; worker = ended })
next_task (testing m (t ∷ ts) completed) c =
    if c.mission_active
    then publish m active (some t) completed (executing t)
        (record c { worker = working m t ts completed })
    else publish m cancelled (some t) completed mission_cancelled (record c { worker = ended })
next_task _ c = c

-- What follows `task.execute()`.
pub finish : Bool → Worker → Controller → Controller
finish true (working m t ts completed) c = record c { worker = testing m ts (u8 (completed + 1)) }
finish false (working m t ts completed) c =
    publish m failed (some t) completed (task_failed t)
      (record c { mission_active = false; worker = ended })
finish ok _ c = c

-- `task.execute()` returns, after the given reply of the skill server.
pub finish_task : Reply → Worker → Controller → Controller
unfolding finish
finish_task reply (working m t ts completed) c =
    finish (execute t reply) (working m t ts completed) c
finish_task reply _ c = c

pub data Action : Type 0 where
  receives : Intent → Action
  handles : ℕ → Action
  spawns begins tests : Action
  finishes : Reply → Action

-- An action that its thread is not about to make changes nothing.
pub step : Action → Controller → Controller
unfolding receive handle spawn begin_mission next_task finish_task
step (receives i) c = receive i c.callback c
step (handles now) c = handle now c.callback c
step spawns c = spawn c.callback c.worker c
step begins c = begin_mission c.worker c
step tests c = next_task c.worker c
step (finishes reply) c = finish_task reply c.worker c

pub run : List Action → Controller → Controller
run [] c = c
run (a ∷ rest) c = run rest (step a c)
