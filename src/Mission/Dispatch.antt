-- ===== src/Mission/Dispatch.antt =====
-- Which mission an intent starts.
use rises.Base.{
  ℕ, ◌≡◌, refl, inl, inr, true, List, [], ◌∷◌, some, All, Text, Bool-cases, Option-cases,
}
use rises.Base.Strings.{bytes, find, is_found, find-append}
use rises.Mission.Skills.{Task, get_area_state, set_area_state, get_map_info, get_safety_radius}
use rises.Mission.{
  IntentName, start_activity, stop_activity, other_intent, MissionType, area_access_control,
  update_geofence_map, started, starts, area_id, build_area_control_mission,
  build_map_update_mission, dispatch,
}

-- The task does not unlock an area.
abbrev pub LocksOnly : Task → Type 0
LocksOnly (set_area_state id lock) = lock ≡ true
LocksOnly _ = Unit

-- An `unlock_area` intent is taken for a `lock_area` intent, whose name is a part of its own: where
-- an area can be read from its data, the mission sets that area's state to locked.
pub unlock_intent_locks :
    (payload : Text) (id : ℕ)
    → is_found (find (bytes "unlock_area") payload) ≡ true
    → area_id payload ≡ some id
    → dispatch start_activity payload
      ≡ starts area_access_control (get_area_state id ∷ set_area_state id true ∷ [])
unfolding dispatch
unlock_intent_locks payload id h e =
    let lock : is_found (find (bytes "lock_area") payload) ≡ true =
      find-append (bytes "un") (bytes "lock_area") payload h in
    rw (lock, dispatch, e, build_area_control_mission) refl

-- The tasks of an access-control mission that locks.
locking_tasks :
    (payload : Text) (type : MissionType) (tasks : List Task)
    → started area_access_control (build_area_control_mission payload true) ≡ starts type tasks
    → All LocksOnly tasks
unfolding build_area_control_mission
locking_tasks payload type tasks h = elim (Option-cases (area_id payload)) [
  | inl bad ↦ cc (rw (bad, build_area_control_mission) at h)
  | inr (id, good) ↦
      let h' : starts area_access_control (get_area_state id ∷ set_area_state id true ∷ [])
          ≡ starts type tasks =
        rw (good, build_area_control_mission) at h in
      let e : tasks ≡ get_area_state id ∷ set_area_state id true ∷ [] = cc in rw e (tt, (refl, tt))
]

-- No intent, whatever it says, starts a mission with a task that unlocks an area.
pub dispatch-LocksOnly :
    (name : IntentName) (payload : Text) (type : MissionType) (tasks : List Task)
    → dispatch name payload ≡ starts type tasks
    → All LocksOnly tasks
unfolding dispatch build_map_update_mission
dispatch-LocksOnly start_activity payload type tasks h =
    elim (Bool-cases (is_found (find (bytes "lock_area") payload))) [
      | inl lock ↦ locking_tasks payload type tasks (rw (lock, dispatch) at h)
      | inr no_lock ↦ elim (Bool-cases (is_found (find (bytes "unlock_area") payload))) [
        | inl unlock ↦ cc (no_lock, find-append (bytes "un") (bytes "lock_area") payload unlock)
        | inr no_unlock ↦ elim (Bool-cases (is_found (find (bytes "update_map") payload))) [
          | inl map ↦
              let h' : starts update_geofence_map (get_map_info ∷ get_safety_radius ∷ [])
                  ≡ starts type tasks =
                rw (no_lock, no_unlock, map, dispatch) at h in
              let e : tasks ≡ get_map_info ∷ get_safety_radius ∷ [] = cc in rw e (tt, (tt, tt))
          | inr neither ↦ cc (rw (no_lock, no_unlock, neither, dispatch) at h)
        ]
      ]
    ]
dispatch-LocksOnly stop_activity payload type tasks h = cc
dispatch-LocksOnly other_intent payload type tasks h = cc
