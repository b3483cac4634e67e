-- ===== src/Mission/Tests.antt =====
-- The controller on a few intents.
use rises.Base.{◌≡◌, refl, true, List, [], ◌∷◌, ◌++◌, none, some, Text, count_if}
use rises.Base.Strings.{bytes, find, stoll}
use rises.Mission.Skills.{Reply}
use rises.Mission.{
  start_activity, stop_activity, Intent, area_position, area_id, build_map_update_mission, dispatch,
  start, receive, respond, handle, spawn, begin_mission, next_task, step, run, Action, receives,
  handles, spawns, begins, tests, finishes, Controller,
}
use rises.Mission.Listener.{heard, follow}
use rises.Mission.Reports.{reports_in_order}
use rises.Mission.Stop.{is_cancelled, Runs, stop_ignored}

abbrev unlock : Text
unlock = bytes "unlock_area area_id: 42"

unlock-area_id : area_id unlock ≡ some 42
unfolding area_id area_position find stoll
unlock-area_id = refl

abbrev good : Reply
good = record {
  available = true;
  goal_ready = true;
  goal_accepted = true;
  result_ready = true;
  result_succeeded = true;
  result_success = true;
}

abbrev asks : Intent
asks = record { intent = start_activity; payload = bytes "update_map" }

abbrev halts : Intent
halts = record { intent = stop_activity; payload = [] }

-- The mission is begun.
abbrev opening : List Action
opening = receives asks ∷ handles 5 ∷ spawns ∷ begins ∷ tests ∷ []

-- An operator asks the mission to stop, and it goes on.
abbrev rest : List Action
rest =
    receives halts
    ∷ handles 6
    ∷ finishes good
    ∷ tests
    ∷ receives halts
    ∷ handles 7
    ∷ finishes good
    ∷ tests
    ∷ []

opening_runs :
    (c : Controller) × (run opening start ≡ c) × Runs c.worker c.mission_active c.callback
unfolding run step receive respond handle spawn begin_mission next_task start dispatch find
    build_map_update_mission
opening_runs = (_, refl, refl)

stop_ignored_example :
    count_if is_cancelled (run rest opening_runs.0).mission_status
    ≡ count_if is_cancelled opening_runs.0.mission_status
stop_ignored_example =
    stop_ignored rest opening_runs.0 opening_runs.2
      (refl, (refl, (refl, (refl, (refl, (refl, (refl, (refl, tt))))))))

reports_in_order_example :
    follow none (run (opening ++ rest) start).mission_status
    ≡ some (heard (run (opening ++ rest) start).worker)
reports_in_order_example = reports_in_order (opening ++ rest)
