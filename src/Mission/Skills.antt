-- ===== src/Mission/Skills.antt =====
-- The tasks of a mission, and what their closures make of the skill servers' replies.
use rises.Base.{ℕ, Bool, true, false, ◌&&◌, Option, none, some, if◌then◌else◌}

-- The tasks that the missions are made of, with what their closures capture.
pub data Task : Type 0 where
  get_area_state : ℕ → Task
  set_area_state : ℕ → Bool → Task
  get_map_info : Task
  get_safety_radius : Task

-- One call of a skill: whether the action server is found in time, the goal handle arrives in
-- time and is not null, the result arrives in time and its code is SUCCEEDED; and the fields of
-- the result that a task looks at.
pub record Reply : Type 0 where
  pub available : Bool
  pub goal_ready : Bool
  pub goal_accepted : Bool
  pub result_ready : Bool
  pub result_succeeded : Bool
  pub result_success : Bool

-- `callSkill`: `some` of the result's `success`, or `none` for `nullptr`.
pub call_skill : Reply → Option Bool
call_skill r =
    if not_ready r.goal_ready
    then none
    else if not_ready r.goal_accepted
    then none
    else if not_ready r.result_ready
    then none
    else if not_ready r.result_succeeded
    then none
    else some r.result_success
  where
    not_ready : Bool → Bool
    not_ready true = false
    not_ready false = true

-- What a task makes of the result: only `set_area_state` looks at it.
abbrev judge : Task → Option Bool → Bool
judge t none = false
judge (set_area_state id lock) (some success) = success
judge _ (some success) = true

pub execute : Task → Reply → Bool
unfolding call_skill
execute t r = r.available && judge t (call_skill r)
