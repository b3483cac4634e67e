-- ===== src/Tasks/Crossing.antt =====
-- What the example tasks ask of the skills: the locks of the corridor, and the verdicts on paths.
use rises.Base.{
  ◌≡◌, refl, sym, ◌∙◌, ℕ, Bool, true, false, not, List, [], ◌∷◌, if◌then◌else◌, Text, All,
  All-append, arith, length,
}
use rises.Base.Int.{pos}
use rises.SkillBridge.{
  Skill, validate_path, update_map, set_area_state, set_safety_radius, update_warehouse_layout,
  get_area_state, get_safety_radius, get_map_info, set_geofence_enabled, Goal,
}
use rises.Tasks.{TaskStep, TaskRunner, run}
use rises.Tasks.Progress.{goes_well, world_after, run-story}
use rises.Tasks.Examples.{
  was_sent, Sent, Skills, Planned, scheduled, call_skill_blocking, received, area_is_free,
  build_corridor_crossing_task,
}

abbrev unlocks : (k : Skill) → Goal k → Bool
unlocks set_area_state request = not request.lock
unlocks validate_path goal = false
unlocks update_map goal = false
unlocks set_safety_radius goal = false
unlocks update_warehouse_layout goal = false
unlocks get_area_state goal = false
unlocks get_safety_radius goal = false
unlocks get_map_info goal = false
unlocks set_geofence_enabled goal = false

abbrev locks : (k : Skill) → Goal k → Bool
locks set_area_state request = request.lock
locks validate_path goal = false
locks update_map goal = false
locks set_safety_radius goal = false
locks update_warehouse_layout goal = false
locks get_area_state goal = false
locks get_safety_radius goal = false
locks get_map_info goal = false
locks set_geofence_enabled goal = false

abbrev pub is_lock : Sent → Bool
is_lock sent = locks sent.skill sent.goal

abbrev pub is_unlock : Sent → Bool
is_unlock sent = unlocks sent.skill sent.goal

abbrev Keeps : (Sent → Type 0) → TaskStep (List Sent) → Type 0
Keeps P step = (w : List Sent) → All P w → All P (step.execute w).1

-- All steps but the last keep P, and the last never fails.
abbrev Guarded : (Sent → Type 0) → List Planned → Type 0
Guarded P [] = Unit
Guarded P (p ∷ []) = (cancel_called : Bool) (w : List Sent) → ((p cancel_called).execute w).0 ≡ true
Guarded P (p ∷ q ∷ ps) = ((cancel_called : Bool) → Keeps P (p cancel_called)) × Guarded P (q ∷ ps)

pick_All :
    (P : Sent → Type 0) (b : Bool) (w v : List Sent)
    → All P w
    → All P v
    → All P (if b then w else v)
pick_All P true w v h k = h
pick_All P false w v h k = k

call-Keeps :
    (P : Sent → Type 0) (skills : Skills) (k : Skill) (goal : Goal k)
    → P (record { skill = k; goal = goal })
    → (w : List Sent) → All P w
    → All P (call_skill_blocking skills k goal w).1
unfolding call_skill_blocking
call-Keeps P skills k goal holds w h =
    pick_All P (was_sent (skills w k goal)) _ w (All-append P w _ h (holds, tt)) h

-- A run that does not succeed ends before its last step.
failed_run_keeps :
    (P : Sent → Type 0) (ps : List Planned) (calls : List Bool) (w : List Sent)
    → Guarded P ps
    → goes_well (scheduled ps calls) w ≡ false
    → All P w
    → All P (world_after (scheduled ps calls) w)
failed_run_keeps P [] [] w g bad h = h
failed_run_keeps P [] (c ∷ calls) w g bad h = h
failed_run_keeps P (p ∷ []) [] w g bad h = ground (arith, g false w)
failed_run_keeps P (p ∷ []) (c ∷ []) w g bad h = ground (arith, g c w)
failed_run_keeps P (p ∷ []) (c ∷ d ∷ calls) w g bad h = ground (arith, g c w)
failed_run_keeps P (p ∷ q ∷ ps) [] w g bad h =
    ground (arith, g.0 false w h, failed_run_keeps P (q ∷ ps) [] ((p false).execute w).1 g.1)
failed_run_keeps P (p ∷ q ∷ ps) (c ∷ calls) w g bad h =
    ground (arith, g.0 c w h, failed_run_keeps P (q ∷ ps) calls ((p c).execute w).1 g.1)

length-scheduled : (ps : List Planned) (calls : List Bool) → length (scheduled ps calls) ≡ length ps
length-scheduled [] calls = refl
length-scheduled (p ∷ ps) [] = omega (arith, length-scheduled ps [])
length-scheduled (p ∷ ps) (c ∷ calls) = omega (arith, length-scheduled ps calls)

-- A corridor crossing that does not return true never asks for an unlock, whatever it did before,
-- also where it has locked the corridor.
pub failed_crossing_never_unlocks :
    (skills : Skills) (path : Text) (calls : List Bool) (id : ℕ) (mission_type : Text)
    (r : TaskRunner)
    → (run id mission_type (scheduled (build_corridor_crossing_task skills path) calls) r []).0
      ≡ false
    → All
        (λ sent. is_unlock sent ≡ false)
        (run id mission_type (scheduled (build_corridor_crossing_task skills path) calls) r []).2
unfolding build_corridor_crossing_task
failed_crossing_never_unlocks skills path calls id mission_type r bad =
    let ps = build_corridor_crossing_task skills path in
    let P = λ (sent : Sent). is_unlock sent ≡ false in
    let told =
      run-story id mission_type (scheduled ps calls) r []
        (omega (arith, length-scheduled ps calls)) in
    rw told.3 (
      failed_run_keeps P ps calls []
        (
          λ c. call-Keeps P skills _ _ refl,
          (
            λ c. call-Keeps P skills _ _ refl,
            (
              λ c. call-Keeps P skills _ _ refl,
              (
                λ c. call-Keeps P skills _ _ refl,
                (λ c w h. h, (λ c. call-Keeps P skills _ _ refl, λ c w. refl)),
              ),
            ),
          ),
        )
        (sym told.0 ∙ bad) tt)

-- The first step fails and keeps P.
abbrev FailsFirst : (Sent → Type 0) → List Planned → List Sent → Type 0
FailsFirst P [] w = ⊥
FailsFirst P (p ∷ ps) w =
    ((cancel_called : Bool) → ((p cancel_called).execute w).0 ≡ false)
    × ((cancel_called : Bool) → All P ((p cancel_called).execute w).1)

first_step_fails :
    (P : Sent → Type 0) (ps : List Planned) (calls : List Bool) (w : List Sent)
    → FailsFirst P ps w
    → All P w
    → (goes_well (scheduled ps calls) w ≡ false) × All P (world_after (scheduled ps calls) w)
first_step_fails P [] calls w fails h = absurd fails
first_step_fails P (p ∷ ps) [] w fails h =
    (ground (arith, fails.0 false), ground (arith, fails.0 false, fails.1 false))
first_step_fails P (p ∷ ps) (c ∷ calls) w fails h =
    (ground (arith, fails.0 c), ground (arith, fails.0 c, fails.1 c))

-- Where the state of the corridor is not received, or is locked, a crossing returns false and asks for
-- no lock.
pub locked_corridor_is_left_alone :
    (skills : Skills) (path : Text) (calls : List Bool) (id : ℕ) (mission_type : Text)
    (r : TaskRunner)
    → area_is_free (received (skills [] get_area_state (pos 1))) ≡ false
    → ((run id mission_type (scheduled (build_corridor_crossing_task skills path) calls) r []).0
        ≡ false)
      × All
          (λ sent. is_lock sent ≡ false)
          (run id mission_type (scheduled (build_corridor_crossing_task skills path) calls) r []).2
unfolding build_corridor_crossing_task call_skill_blocking
locked_corridor_is_left_alone skills path calls id mission_type r busy =
    let ps = build_corridor_crossing_task skills path in
    let P = λ (sent : Sent). is_lock sent ≡ false in
    let told =
      run-story id mission_type (scheduled ps calls) r []
        (omega (arith, length-scheduled ps calls)) in
    let first =
      first_step_fails P ps calls []
        (λ c. busy, λ c. call-Keeps P skills get_area_state (pos 1) refl [] tt) tt in
    rw told.3 (told.0 ∙ first.0, first.1)
