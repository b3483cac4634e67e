-- ===== src/Tasks/Tests.antt =====
-- Runs on worlds that are logs.
use rises.Base.{◌≡◌, refl, ℕ, Bool, true, false, List, [], ◌∷◌, ◌++◌, none, length, All, arith}
use rises.Base.Int.{pos}
use rises.Base.Strings.{bytes}
use rises.SkillBridge.{
  Skill, validate_path, update_map, set_area_state, set_safety_radius, update_warehouse_layout,
  get_area_state, get_safety_radius, get_map_info, set_geofence_enabled, Result, Verdict, Service,
}
use rises.Tasks.{TaskStep, start, cancel, run, run_steps, close, publish_status}
use rises.Tasks.Progress.{goes_well, whole_story, world_after, run-story}
use rises.Tasks.Examples.{
  Skills, Outcome, ResultCode, scheduled, received, area_is_free, build_corridor_crossing_task,
  call_skill_blocking,
}
use rises.Tasks.Crossing.{is_unlock, failed_crossing_never_unlocks}

-- A run of three steps, of which the last is cancelled.
abbrev route : List (TaskStep (List ℕ))
route =
    record { name = bytes "lock"; execute = λ w. (true, 1 ∷ w); cancel_called = false }
    ∷ record { name = bytes "move"; execute = λ w. (true, 2 ∷ w); cancel_called = false }
    ∷ record { name = bytes "free"; execute = λ w. (true, 3 ∷ w); cancel_called = true }
    ∷ []

run-story_example :
    let out = run 7 (bytes "demo") route (cancel start) [] in
    (out.0 ≡ goes_well route [])
    × (out.1.status_topic
        ≡ (cancel start).status_topic ++ whole_story 7 (bytes "demo") (length route) route [])
    × (out.1.is_active ≡ false)
    × (out.2 ≡ world_after route [])
run-story_example = run-story 7 (bytes "demo") route (cancel start) [] (omega arith)

world_after-route : world_after route [] ≡ 2 ∷ 1 ∷ []
world_after-route = refl

abbrev result_of : Bool → (k : Skill) → Result k
result_of locked validate_path = record { blocked = true; message = [] }
result_of locked update_map = record {
  success = true;
  message = [];
  obstacles_added = pos 0;
  obstacles_removed = pos 0;
}
result_of locked set_area_state = record { success = true; message = [] }
result_of locked set_safety_radius = record { success = true; message = [] }
result_of locked update_warehouse_layout = record {
  success = true;
  message = [];
  segments_count = pos 0;
  inner_polygons_count = pos 0;
}
result_of locked get_area_state = record { locked = locked; found = true; message = [] }
result_of locked get_safety_radius = 0
result_of locked get_map_info = record {
  obstacle_count = pos 0;
  contours_loaded = true;
  contour_segment_count = pos 0;
  inner_polygon_count = pos 0;
}
result_of locked set_geofence_enabled = record {
  success = true;
  previous_state = true;
  message = [];
}

-- Skills that do what they are asked, with a corridor that is locked or not and a blocked path.
abbrev willing : Bool → Skills
willing locked w k goal = Outcome.wrapped ResultCode.succeeded (result_of locked k)

-- A crossing that is cancelled when the corridor and the radius are set.
abbrev late_cancel : List Bool
late_cancel = false ∷ false ∷ false ∷ true ∷ []

cancelled_false :
    (run 7 [] (scheduled (build_corridor_crossing_task (willing false) []) late_cancel) start []).0
    ≡ false
unfolding run run_steps close publish_status cancel build_corridor_crossing_task call_skill_blocking
    received
cancelled_false = refl

is_busy : area_is_free (received (willing true [] get_area_state (pos 1))) ≡ false
unfolding received
is_busy = refl

abbrev silent : Service get_area_state
silent = record { available = false; reply = λ q. none }

abbrev cleared : Verdict → Verdict
cleared verdict = record verdict { blocked = false }

sent_before_cancel :
    length
      (run 7 []
        (scheduled (build_corridor_crossing_task (willing false) []) late_cancel)
        start
        []).2
    ≡ 3
unfolding run run_steps close publish_status cancel build_corridor_crossing_task call_skill_blocking
    received
sent_before_cancel = refl

failed_crossing_never_unlocks_example :
    All
      (λ sent. is_unlock sent ≡ false)
      (run 7 []
        (scheduled (build_corridor_crossing_task (willing false) []) late_cancel)
        start
        []).2
failed_crossing_never_unlocks_example =
    failed_crossing_never_unlocks (willing false) [] late_cancel 7 [] start cancelled_false
