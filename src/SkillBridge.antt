-- ===== src/SkillBridge.antt =====
-- src/rises_skill_bridge: skill_bridge_node.cpp. The skills as action servers over the services of
-- the geofence. An accepted goal is handled to its end in one callback, whose effects are a list of
-- events; whether the goal is being cancelled when the callback ends is an argument.
-- A `float` is its 32 bits. Messages that are passed on unread are byte strings.
pub mod Commands
pub mod Queries
pub mod Endings
mod Tests
use rises.Base.{ℕ, Bool, List, [], ◌∷◌, Option, none, some, if◌then◌else◌, Text}
use rises.Base.Int.{ℤ}

pub data Skill : Type 0 where
  validate_path update_map set_area_state set_safety_radius update_warehouse_layout : Skill
  get_area_state get_safety_radius get_map_info set_geofence_enabled : Skill

pub record AreaRequest : Type 0 where
  pub area_id : ℤ
  pub lock : Bool

-- What a goal holds; the request of a service has the same fields.
abbrev pub Goal : Skill → Type 0
Goal validate_path = Text
Goal update_map = Text
Goal set_area_state = AreaRequest
Goal set_safety_radius = ℕ
Goal update_warehouse_layout = Text
Goal get_area_state = ℤ
Goal get_safety_radius = Unit
Goal get_map_info = Unit
Goal set_geofence_enabled = Bool

-- The request of `set_geofence_enabled` is the id of a lifecycle transition.
abbrev pub Request : Skill → Type 0
Request set_geofence_enabled = ℕ
Request validate_path = Text
Request update_map = Text
Request set_area_state = AreaRequest
Request set_safety_radius = ℕ
Request update_warehouse_layout = Text
Request get_area_state = ℤ
Request get_safety_radius = Unit
Request get_map_info = Unit

pub record Verdict : Type 0 where
  pub blocked : Bool
  pub message : Text

pub record MapUpdate : Type 0 where
  pub success : Bool
  pub message : Text
  pub obstacles_added : ℤ
  pub obstacles_removed : ℤ

pub record Report : Type 0 where
  pub success : Bool
  pub message : Text

pub record Layout : Type 0 where
  pub success : Bool
  pub message : Text
  pub segments_count : ℤ
  pub inner_polygons_count : ℤ

pub record AreaState : Type 0 where
  pub locked : Bool
  pub found : Bool
  pub message : Text

pub record MapInfo : Type 0 where
  pub obstacle_count : ℤ
  pub contours_loaded : Bool
  pub contour_segment_count : ℤ
  pub inner_polygon_count : ℤ

pub record Switched : Type 0 where
  pub success : Bool
  pub previous_state : Bool
  pub message : Text

-- `validate_path` and `ChangeState` answer with one Boolean.
abbrev pub Response : Skill → Type 0
Response validate_path = Bool
Response update_map = MapUpdate
Response set_area_state = Report
Response set_safety_radius = Report
Response update_warehouse_layout = Layout
Response get_area_state = AreaState
Response get_safety_radius = ℕ
Response get_map_info = MapInfo
Response set_geofence_enabled = Bool

abbrev pub Result : Skill → Type 0
Result validate_path = Verdict
Result update_map = MapUpdate
Result set_area_state = Report
Result set_safety_radius = Report
Result update_warehouse_layout = Layout
Result get_area_state = AreaState
Result get_safety_radius = ℕ
Result get_map_info = MapInfo
Result set_geofence_enabled = Switched

-- A service as the bridge meets it: whether it appears within the timeout, and what it answers
-- within the timeout, if anything.
pub record Service (k : Skill) : Type 0 where
  pub available : Bool
  pub reply : Request k → Option (Response k)

-- A feedback has a text, and for `update_map` a progress.
pub data Event (k : Skill) : Type 0 where
  feedback : Text → Option ℕ → Event k
  request : Request k → Event k
  canceled : Result k → Event k
  succeed : Result k → Event k

-- The response, or `none` for `nullptr`, and the requests that are sent.
unfoldable pub call_service :
    {k : Skill} → Service k → Request k → Option (Response k) × List (Event k)
call_service service query =
    if service.available then (service.reply query, request query ∷ []) else (none, [])

abbrev pub finish : {k : Skill} → Bool → Result k → List (Event k)
finish {k} canceling result = (if canceling then canceled result else succeed result) ∷ []
