-- ===== src/SkillBridge/Commands.antt =====
-- The skills that act: the handlers of accepted goals, and the results they end with. Fields that the
-- code leaves unset are zero.
use rises.Base.{Bool, true, false, not, List, [], ◌∷◌, ◌++◌, Option, none, some, if◌then◌else◌}
use rises.Base.Int.{pos}
use rises.Base.Strings.{bytes}
use rises.SkillBridge.{
  validate_path, update_map, set_area_state, set_safety_radius, update_warehouse_layout,
  set_geofence_enabled, Goal, Verdict, MapUpdate, Report, Layout, Switched, Service, Event,
  feedback, request, succeed, call_service, finish,
}

unfoldable pub validate_path_result : Option Bool → Verdict
validate_path_result (some blocked) = record {
  blocked = blocked;
  message = if blocked then bytes "Path is blocked" else bytes "Path is clear";
}
validate_path_result none = record {
  blocked = true;
  message = bytes "Service call to validate_path failed";
}

unfoldable pub handle_validate_path_accepted :
    Service validate_path → Bool → Goal validate_path → List (Event validate_path)
unfolding call_service validate_path_result
handle_validate_path_accepted service canceling goal =
    let call = call_service service goal in
    feedback (bytes "validating path") none
    ∷ (call.1 ++ finish canceling (validate_path_result call.0))

unfoldable pub update_map_result : Option MapUpdate → MapUpdate
update_map_result (some response) = response
update_map_result none = record {
  success = false;
  message = bytes "Service call to update_map failed";
  obstacles_added = pos 0;
  obstacles_removed = pos 0;
}

unfoldable pub handle_update_map_accepted :
    Service update_map → Bool → Goal update_map → List (Event update_map)
unfolding call_service update_map_result
handle_update_map_accepted service canceling goal =
    let call = call_service service goal in
    feedback (bytes "updating map") (some 0)
    ∷ (call.1
        ++ (feedback (bytes "complete") (some 1065353216)
            ∷ finish canceling (update_map_result call.0)))

unfoldable pub set_area_state_result : Option Report → Report
set_area_state_result (some response) = response
set_area_state_result none = record {
  success = false;
  message = bytes "Service call to set_area_state failed";
}

unfoldable pub handle_set_area_state_accepted :
    Service set_area_state → Bool → Goal set_area_state → List (Event set_area_state)
unfolding call_service set_area_state_result
handle_set_area_state_accepted service canceling goal =
    let call = call_service service goal in
    feedback (bytes "setting area state") none
    ∷ (call.1 ++ finish canceling (set_area_state_result call.0))

unfoldable pub set_safety_radius_result : Option Report → Report
set_safety_radius_result (some response) = response
set_safety_radius_result none = record {
  success = false;
  message = bytes "Service call to set_safety_circle_radius failed";
}

unfoldable pub handle_set_safety_radius_accepted :
    Service set_safety_radius → Bool → Goal set_safety_radius → List (Event set_safety_radius)
unfolding call_service set_safety_radius_result
handle_set_safety_radius_accepted service canceling goal =
    let call = call_service service goal in
    feedback (bytes "updating safety radius") none
    ∷ (call.1 ++ finish canceling (set_safety_radius_result call.0))

unfoldable pub update_warehouse_layout_result : Option Layout → Layout
update_warehouse_layout_result (some response) = response
update_warehouse_layout_result none = record {
  success = false;
  message = bytes "Service call to update_warehouse_layout failed";
  segments_count = pos 0;
  inner_polygons_count = pos 0;
}

unfoldable pub handle_update_warehouse_layout_accepted :
    Service update_warehouse_layout
    → Bool
    → Goal update_warehouse_layout
    → List (Event update_warehouse_layout)
unfolding call_service update_warehouse_layout_result
handle_update_warehouse_layout_accepted service canceling goal =
    let call = call_service service goal in
    feedback (bytes "updating warehouse layout") none
    ∷ (call.1 ++ finish canceling (update_warehouse_layout_result call.0))

unfoldable pub lifecycle_unavailable : Switched
lifecycle_unavailable = record {
  success = false;
  previous_state = false;
  message = bytes "Lifecycle service not available";
}

unfoldable pub lifecycle_timed_out : Switched
lifecycle_timed_out = record {
  success = false;
  previous_state = false;
  message = bytes "Lifecycle transition timed out";
}

unfoldable pub transition_result : Bool → Bool → Switched
transition_result enabled success = record {
  success = success;
  previous_state = not enabled;
  message =
      if success
      then (if enabled then bytes "Geofence activated" else bytes "Geofence deactivated")
      else (if enabled
          then bytes "Failed to activate geofence"
          else bytes "Failed to deactivate geofence");
}

-- The tests of `is_canceling` stand after the two early returns.
unfoldable pub handle_set_geofence_enabled_accepted :
    Service set_geofence_enabled
    → Bool
    → Goal set_geofence_enabled
    → List (Event set_geofence_enabled)
unfolding lifecycle_unavailable lifecycle_timed_out transition_result
handle_set_geofence_enabled_accepted service canceling enabled =
    let query = if enabled then 3 else 4 in
    if service.available
    then request query ∷ elim (service.reply query) [
      | none ↦ succeed lifecycle_timed_out ∷ []
      | some success ↦ finish canceling (transition_result enabled success)
    ]
    else succeed lifecycle_unavailable ∷ []
