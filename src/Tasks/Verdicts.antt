-- ===== src/Tasks/Verdicts.antt =====
-- What the example tasks make of the answers of the skills.
use rises.Base.{
  ◌≡◌, refl, ap, ◌&&◌, ℕ, Bool, false, not, List, [], ◌∷◌, Option, none, some, Text, arith,
}
use mathlib.Core.Path.{fun_ext}
use rises.Base.Int.{ℤ}
use rises.Base.Strings.{bytes}
use rises.SkillBridge.{
  Skill, validate_path, update_map, set_area_state, set_safety_radius, update_warehouse_layout,
  get_area_state, get_safety_radius, get_map_info, set_geofence_enabled, Verdict, AreaState,
  Service, Event, feedback, request, canceled, succeed, call_service,
}
use rises.SkillBridge.Queries
use rises.SkillBridge.Endings.{handle_accepted, answer}
use rises.Tasks.{TaskRunner, run}
use rises.Tasks.Examples.{
  Sent, Skills, Planned, scheduled, Outcome, ResultCode, received, call_skill_blocking,
  area_is_free, path_was_checked, skill_step, build_corridor_crossing_task,
  build_safe_navigation_task,
}

abbrev pub is_locked : Option AreaState → Bool
is_locked none = false
is_locked (some area) = area.locked

-- The client of a skill on the bridge: the last event of the goal.
abbrev pub settle : {k : Skill} → List (Event k) → Outcome k
settle [] = Outcome.result_late
settle (feedback s p ∷ es) = settle es
settle (request q ∷ es) = settle es
settle (canceled r ∷ es) = Outcome.wrapped ResultCode.canceled r
settle (succeed r ∷ es) = Outcome.wrapped ResultCode.succeeded r

-- Behind the bridge the corridor counts as free exactly when the goal is not cancelled and the service
-- does not say that it is locked: also when the service is missing, or does not answer.
pub unanswered_area_is_free :
    (service : Service get_area_state) (canceling : Bool) (area : ℤ)
    → area_is_free (received (settle (handle_accepted get_area_state service canceling area)))
      ≡ not canceling && not (is_locked (answer service area))
unfolding received call_service Queries.handle_get_area_state_accepted Queries.get_area_state_result
unanswered_area_is_free service canceling area = ground arith

abbrev pub reword_outcome : (Verdict → Verdict) → Outcome validate_path → Outcome validate_path
reword_outcome f Outcome.no_server = Outcome.no_server
reword_outcome f Outcome.goal_late = Outcome.goal_late
reword_outcome f Outcome.rejected = Outcome.rejected
reword_outcome f Outcome.result_late = Outcome.result_late
reword_outcome f (Outcome.wrapped code verdict) = Outcome.wrapped code (f verdict)

-- Skills that give other verdicts on paths, and are the same otherwise.
abbrev pub reword : (Verdict → Verdict) → Skills → Skills
reword f skills w validate_path goal = reword_outcome f (skills w validate_path goal)
reword f skills w update_map goal = skills w update_map goal
reword f skills w set_area_state goal = skills w set_area_state goal
reword f skills w set_safety_radius goal = skills w set_safety_radius goal
reword f skills w update_warehouse_layout goal = skills w update_warehouse_layout goal
reword f skills w get_area_state goal = skills w get_area_state goal
reword f skills w get_safety_radius goal = skills w get_safety_radius goal
reword f skills w get_map_info goal = skills w get_map_info goal
reword f skills w set_geofence_enabled goal = skills w set_geofence_enabled goal

abbrev check : Skills → Text → List Sent → Bool × List Sent
check skills path w =
    let call = call_skill_blocking skills validate_path path w in (path_was_checked call.0, call.1)

same_check :
    (f : Verdict → Verdict) (skills : Skills) (path : Text) (w : List Sent)
    → check (reword f skills) path w ≡ check skills path w
unfolding call_skill_blocking received
same_check f skills path w = ground arith

same_step :
    (f : Verdict → Verdict) (skills : Skills) (name path : Text)
    → skill_step (reword f skills) name validate_path path path_was_checked
      ≡ skill_step skills name validate_path path path_was_checked
same_step f skills name path =
    ap {B = Planned}
      (λ (g : List Sent → Bool × List Sent) (c : Bool). record {
        name = name;
        execute = g;
        cancel_called = c;
      })
      (fun_ext (same_check f skills path))

same_navigation :
    (f : Verdict → Verdict) (skills : Skills) (path : Text)
    → build_safe_navigation_task (reword f skills) path ≡ build_safe_navigation_task skills path
unfolding build_safe_navigation_task call_skill_blocking received
same_navigation f skills path = rw (same_step f skills (bytes "validate_path") path) refl

same_crossing :
    (f : Verdict → Verdict) (skills : Skills) (path : Text)
    → build_corridor_crossing_task (reword f skills) path ≡ build_corridor_crossing_task skills path
unfolding build_corridor_crossing_task call_skill_blocking received
same_crossing f skills path = rw (same_step f skills (bytes "validate_path") path) refl

-- The verdict on a path has no effect: where skills differ only in the verdicts that they return,
-- safe navigation and a corridor crossing return, report and send the same.
pub verdict_is_ignored :
    (f : Verdict → Verdict) (skills : Skills) (path : Text) (calls : List Bool) (id : ℕ)
    (mission_type : Text) (r : TaskRunner) (w : List Sent)
    → (run id mission_type (scheduled (build_safe_navigation_task (reword f skills) path) calls) r w
        ≡ run id mission_type (scheduled (build_safe_navigation_task skills path) calls) r w)
      × (run id mission_type
            (scheduled (build_corridor_crossing_task (reword f skills) path) calls)
            r
            w
          ≡ run id mission_type (scheduled (build_corridor_crossing_task skills path) calls) r w)
verdict_is_ignored f skills path calls id mission_type r w =
    (rw (same_navigation f skills path) refl, rw (same_crossing f skills path) refl)
