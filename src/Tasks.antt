-- ===== src/Tasks.antt =====
-- src/rises_task_examples: task_runner.hpp and task_runner.cpp.
-- A step's function acts on a world `W`. Whether `cancel` is called between the tests of the flag
-- before the last step and before this one is a part of a step. The id of a run is its time stamp.
pub mod Progress
pub mod Examples
pub mod Crossing
pub mod Verdicts
mod Tests
use rises.Base.{
  ℕ, ◌+◌, Bool, true, false, List, [], ◌∷◌, ◌++◌, Option, none, some, if◌then◌else◌, length, Text,
}
use rises.Base.Words.{u8}

pub record TaskStep (W : Type 0) : Type 0 where
  pub name : Text
  pub execute : W → Bool × W
  pub cancel_called : Bool

pub data StepStatus : Type 0 where
  active succeeded failed cancelled : StepStatus

pub data Remark : Type 0 where
  no_steps task_started executing cancelled_at failed_at completed_all : Remark

-- `MissionStatus`, as `publishStatus` fills it.
pub record TaskStatus : Type 0 where
  pub mission_id : ℕ
  pub mission_type : Text
  pub status : StepStatus
  pub current_task : Text
  pub total_tasks : ℕ
  pub completed_tasks : ℕ
  pub message : Remark

pub record TaskRunner : Type 0 where
  pub is_active : Bool
  pub cancel_requested : Bool
  pub active_mission_id : Option ℕ
  pub status_topic : List TaskStatus

pub start : TaskRunner
start = record {
  is_active = false;
  cancel_requested = false;
  active_mission_id = none;
  status_topic = [];
}

pub cancel : TaskRunner → TaskRunner
cancel r = record r { cancel_requested = true }

pub publish_status : TaskStatus → TaskRunner → TaskRunner
publish_status status r = record r { status_topic = r.status_topic ++ status ∷ [] }

-- The end of a run: the last report, and `active_` is cleared.
pub close : TaskStatus → TaskRunner → TaskRunner
unfolding publish_status
close status r = record (publish_status status r) { is_active = false }

module _ (id : ℕ) (mission_type : Text) (total : ℕ) where
  abbrev pub report : StepStatus → Text → ℕ → Remark → TaskStatus
  report status name completed message = record {
    mission_id = id;
    mission_type = mission_type;
    status = status;
    current_task = name;
    total_tasks = total;
    completed_tasks = completed;
    message = message;
  }

  -- The loop of `run`, from `completed` on, and what follows it.
  pub run_steps : {W : Type 0} → ℕ → List (TaskStep W) → TaskRunner → W → Bool × TaskRunner × W
  unfolding cancel publish_status close
  run_steps completed [] r w = (true, close (report succeeded [] completed completed_all) r, w)
  run_steps completed (step ∷ rest) r w =
      let seen = if step.cancel_called then cancel r else r in
      let told = publish_status (report active step.name completed executing) seen in
      let done = step.execute w in
      let later = run_steps (u8 (completed + 1)) rest told done.1 in
      if seen.cancel_requested
      then (false, close (report cancelled step.name completed cancelled_at) seen, w)
      else if done.0
      then later
      else (false, close (report failed step.name completed failed_at) told, done.1)

-- `run`, under its mutex.
pub run : {W : Type 0} → ℕ → Text → List (TaskStep W) → TaskRunner → W → Bool × TaskRunner × W
unfolding publish_status close
run id mission_type [] r w = (
  true,
  close (report id mission_type 0 succeeded [] 0 no_steps)
      (record r { is_active = true; cancel_requested = false; active_mission_id = some id }),
  w,
)
run id mission_type (step ∷ rest) r w =
    let total = u8 (length (step ∷ rest)) in
    run_steps id mission_type total 0 (step ∷ rest)
      (publish_status (report id mission_type total active step.name 0 task_started)
        (record r { is_active = true; cancel_requested = false; active_mission_id = some id }))
      w
