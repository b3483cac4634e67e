-- ===== src/Aggregator/Tests.antt =====
-- Two vehicles; their names are hashed to their lengths.
use rises.Base.{ℕ, ◌/◌, ◌%◌, ◌≤◌, ◌≡◌, List, [], ◌∷◌, ◌++◌, length, Text, arith}
use rises.Base.Dict.{text_keys, lookup}
use rises.Base.Strings.{bytes}
use rises.Base.{none}
use rises.Aggregator.{
  id_space_per_agv, ObstacleReport, Event, report, timer, shift_id, start, step, run,
}
use rises.Aggregator.Ids.{agv_index, shift_id-decodes}
use rises.Aggregator.Fleet.{fleet_report, last_report, entries, timer-fleet}

abbrev size : Text → ℕ
size s = length s

shift_id-decodes_example :
    (shift_id (agv_index size (bytes "agv_3")) 41 / id_space_per_agv
      ≡ agv_index size (bytes "agv_3"))
    × (shift_id (agv_index size (bytes "agv_3")) 41 % id_space_per_agv ≡ 41)
shift_id-decodes_example = shift_id-decodes size (bytes "agv_3") 41 (omega arith)

abbrev seen : ℕ → ObstacleReport ℕ
seen n = record {
  unmatched_obstacles = record { id = n; content = 0 } ∷ [];
  matched_obstacles = [];
}

abbrev shift : List (Event ℕ)
shift =
    report (bytes "agv_0") (seen 1)
    ∷ timer
    ∷ report (bytes "agv_1") (seen 1)
    ∷ report (bytes "agv_0") (seen 2)
    ∷ []

timer-fleet_example :
    let a = run size shift start in
    ((step size timer a).fleet_topic ≡ a.fleet_topic ++ fleet_report size a.latest_reports)
    × ((ns : Text) → lookup ns a.latest_reports ≡ last_report ns shift none)
    × ((ns : Text) → entries ns a.latest_reports ≤ 1)
timer-fleet_example = timer-fleet size shift
