-- ===== src/SkillBridge/Tests.antt =====
-- Runs of handlers.
use rises.Base.{◌≡◌, true, false, [], ◌∷◌, none, map}
use rises.SkillBridge.{set_geofence_enabled, Service}
use rises.SkillBridge.Endings.{
  handle_accepted, requests, endings, ends_last, outcome, handle_accepted-EndsOnce,
}

-- A lifecycle service that is there, and does not answer in time.
abbrev stuck : Service set_geofence_enabled
stuck = record { available = true; reply = λ q. none }

handle_accepted-EndsOnce_example :
    let told = handle_accepted set_geofence_enabled stuck true false in
    (requests told ≡ 4 ∷ [])
    × (map (outcome set_geofence_enabled) (endings told) ≡ (false, false) ∷ [])
    × (ends_last told ≡ true)
handle_accepted-EndsOnce_example = handle_accepted-EndsOnce set_geofence_enabled stuck true false
