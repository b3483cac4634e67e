-- ===== src/SkillBridge/Endings.antt =====
-- How a goal ends: each accepted goal has one ending, its last event.
use rises.Base.{
  ◌≡◌, not, map, ◌==◌, Bool, true, false, ◌&&◌, List, [], ◌∷◌, Option, none, some, if◌then◌else◌,
  arith,
}
use rises.SkillBridge.{
  Skill, validate_path, update_map, set_area_state, set_safety_radius, update_warehouse_layout,
  get_area_state, get_safety_radius, get_map_info, set_geofence_enabled, Goal, Request, Response,
  Result, Service, Event, feedback, request, canceled, succeed, call_service,
}
use rises.SkillBridge.Commands
use rises.SkillBridge.Queries

abbrev pub handle_accepted : (k : Skill) → Service k → Bool → Goal k → List (Event k)
handle_accepted validate_path = Commands.handle_validate_path_accepted
handle_accepted update_map = Commands.handle_update_map_accepted
handle_accepted set_area_state = Commands.handle_set_area_state_accepted
handle_accepted set_safety_radius = Commands.handle_set_safety_radius_accepted
handle_accepted update_warehouse_layout = Commands.handle_update_warehouse_layout_accepted
handle_accepted get_area_state = Queries.handle_get_area_state_accepted
handle_accepted get_safety_radius = Queries.handle_get_safety_radius_accepted
handle_accepted get_map_info = Queries.handle_get_map_info_accepted
handle_accepted set_geofence_enabled = Commands.handle_set_geofence_enabled_accepted

abbrev pub request_of : (k : Skill) → Goal k → Request k
request_of set_geofence_enabled enabled = if enabled then 3 else 4
request_of validate_path goal = goal
request_of update_map goal = goal
request_of set_area_state goal = goal
request_of set_safety_radius goal = goal
request_of update_warehouse_layout goal = goal
request_of get_area_state goal = goal
request_of get_safety_radius goal = goal
request_of get_map_info goal = goal

abbrev pub requests : {k : Skill} → List (Event k) → List (Request k)
requests [] = []
requests (feedback s p ∷ es) = requests es
requests (request q ∷ es) = q ∷ requests es
requests (canceled r ∷ es) = requests es
requests (succeed r ∷ es) = requests es

-- The endings among the events, each with whether it is a cancellation.
abbrev pub endings : {k : Skill} → List (Event k) → List (Bool × Result k)
endings [] = []
endings (feedback s p ∷ es) = endings es
endings (request q ∷ es) = endings es
endings (canceled r ∷ es) = (true, r) ∷ endings es
endings (succeed r ∷ es) = (false, r) ∷ endings es

abbrev pub is_ending : {k : Skill} → Event k → Bool
is_ending (feedback s p) = false
is_ending (request q) = false
is_ending (canceled r) = true
is_ending (succeed r) = true

abbrev pub ends_last : {k : Skill} → List (Event k) → Bool
ends_last [] = false
ends_last (e ∷ []) = is_ending e
ends_last (e ∷ f ∷ es) = ends_last (f ∷ es)

-- What the service answers to a goal's request, if anything.
abbrev pub answer : {k : Skill} → Service k → Goal k → Option (Response k)
answer {k} service goal = if service.available then service.reply (request_of k goal) else none

-- What a client reads as success.
abbrev pub result_is_good : (k : Skill) → Result k → Bool
result_is_good validate_path r = not r.blocked
result_is_good update_map r = r.success
result_is_good set_area_state r = r.success
result_is_good set_safety_radius r = r.success
result_is_good update_warehouse_layout r = r.success
result_is_good get_area_state r = r.found
result_is_good get_safety_radius r = not (r == Queries.minus_one)
result_is_good get_map_info r = r.contours_loaded
result_is_good set_geofence_enabled r = r.success

abbrev pub response_is_good : (k : Skill) → Response k → Bool
response_is_good validate_path blocked = not blocked
response_is_good update_map r = r.success
response_is_good set_area_state r = r.success
response_is_good set_safety_radius r = r.success
response_is_good update_warehouse_layout r = r.success
response_is_good get_area_state r = r.found
response_is_good get_safety_radius radius = not (radius == Queries.minus_one)
response_is_good get_map_info r = r.contours_loaded
response_is_good set_geofence_enabled success = success

abbrev pub answer_is_good : (k : Skill) → Option (Response k) → Bool
answer_is_good k none = false
answer_is_good k (some response) = response_is_good k response

-- `set_geofence_enabled` does not look at the cancellation where it has no answer.
abbrev pub heeds_cancel : (k : Skill) → Option (Response k) → Bool
heeds_cancel set_geofence_enabled none = false
heeds_cancel set_geofence_enabled (some r) = true
heeds_cancel validate_path r = true
heeds_cancel update_map r = true
heeds_cancel set_area_state r = true
heeds_cancel set_safety_radius r = true
heeds_cancel update_warehouse_layout r = true
heeds_cancel get_area_state r = true
heeds_cancel get_safety_radius r = true
heeds_cancel get_map_info r = true

abbrev pub outcome : (k : Skill) → Bool × Result k → Bool × Bool
outcome k e = (e.0, result_is_good k e.1)

abbrev EndsOnce :
    (k : Skill) → Bool → Bool → Option (Response k) → Request k → List (Event k) → Type 0
EndsOnce k available canceling reply query told =
    (requests told ≡ (if available then query ∷ [] else []))
    × (map (outcome k) (endings told)
        ≡ (canceling && heeds_cancel k reply, answer_is_good k reply) ∷ [])
    × (ends_last told ≡ true)

-- Every accepted goal, for every skill and whatever its service does, sends the one request that its
-- fields make if the service is available and none otherwise, and has exactly one ending, its last
-- event. The ending is a cancellation exactly when the goal is being cancelled, but for
-- `set_geofence_enabled` without an answer, which is then reported as succeeded; its result is good
-- exactly when the service answers in time and the answer is good.
pub handle_accepted-EndsOnce :
    (k : Skill) (service : Service k) (canceling : Bool) (goal : Goal k)
    → EndsOnce k service.available canceling
        (answer service goal)
        (request_of k goal)
        (handle_accepted k service canceling goal)
unfolding call_service Commands.handle_validate_path_accepted Commands.handle_update_map_accepted
    Commands.handle_set_area_state_accepted Commands.handle_set_safety_radius_accepted
    Commands.handle_update_warehouse_layout_accepted Commands.handle_set_geofence_enabled_accepted
    Queries.handle_get_area_state_accepted Queries.handle_get_safety_radius_accepted
    Queries.handle_get_map_info_accepted Commands.validate_path_result Commands.update_map_result
    Commands.set_area_state_result Commands.set_safety_radius_result
    Commands.update_warehouse_layout_result Commands.lifecycle_unavailable
    Commands.lifecycle_timed_out Commands.transition_result Queries.get_area_state_result
    Queries.get_safety_radius_result Queries.get_map_info_result
handle_accepted-EndsOnce validate_path service canceling goal = ground arith
handle_accepted-EndsOnce update_map service canceling goal = ground arith
handle_accepted-EndsOnce set_area_state service canceling goal = ground arith
handle_accepted-EndsOnce set_safety_radius service canceling goal = ground arith
handle_accepted-EndsOnce update_warehouse_layout service canceling goal = ground arith
handle_accepted-EndsOnce get_area_state service canceling goal = ground arith
handle_accepted-EndsOnce get_safety_radius service canceling goal = ground arith
handle_accepted-EndsOnce get_map_info service canceling goal = ground arith
handle_accepted-EndsOnce set_geofence_enabled service canceling goal = ground arith
