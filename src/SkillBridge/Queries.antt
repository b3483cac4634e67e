-- ===== src/SkillBridge/Queries.antt =====
-- The skills that ask: the handlers of accepted goals, and the results they end with.
use rises.Base.{ℕ, Bool, false, List, ◌∷◌, ◌++◌, Option, none, some}
use rises.Base.Int.{pos, negsuc}
use rises.Base.Strings.{bytes}
use rises.SkillBridge.{
  get_area_state, get_safety_radius, get_map_info, Goal, AreaState, MapInfo, Service, Event,
  feedback, call_service, finish,
}

unfoldable pub get_area_state_result : Option AreaState → AreaState
get_area_state_result (some response) = response
get_area_state_result none = record {
  locked = false;
  found = false;
  message = bytes "Service call to get_area_state failed";
}

unfoldable pub handle_get_area_state_accepted :
    Service get_area_state → Bool → Goal get_area_state → List (Event get_area_state)
unfolding call_service get_area_state_result
handle_get_area_state_accepted service canceling goal =
    let call = call_service service goal in
    feedback (bytes "querying area state") none
    ∷ (call.1 ++ finish canceling (get_area_state_result call.0))

-- The bits of -1.0f.
abbrev pub minus_one : ℕ
minus_one = 3212836864

unfoldable pub get_safety_radius_result : Option ℕ → ℕ
get_safety_radius_result (some radius) = radius
get_safety_radius_result none = minus_one

unfoldable pub handle_get_safety_radius_accepted :
    Service get_safety_radius → Bool → Goal get_safety_radius → List (Event get_safety_radius)
unfolding call_service get_safety_radius_result
handle_get_safety_radius_accepted service canceling goal =
    let call = call_service service goal in
    feedback (bytes "querying safety radius") none
    ∷ (call.1 ++ finish canceling (get_safety_radius_result call.0))

unfoldable pub get_map_info_result : Option MapInfo → MapInfo
get_map_info_result (some response) = response
get_map_info_result none = record {
  obstacle_count = negsuc 0;
  contours_loaded = false;
  contour_segment_count = pos 0;
  inner_polygon_count = pos 0;
}

unfoldable pub handle_get_map_info_accepted :
    Service get_map_info → Bool → Goal get_map_info → List (Event get_map_info)
unfolding call_service get_map_info_result
handle_get_map_info_accepted service canceling goal =
    let call = call_service service goal in
    feedback (bytes "querying map info") none
    ∷ (call.1 ++ finish canceling (get_map_info_result call.0))
