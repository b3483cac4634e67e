-- ===== src/Mission/Listener.antt =====
-- A listener of the missions' reports, and what it makes of each.
use rises.Base.{
  ℕ, suc, zero, ◌+◌, ◌≡◌, ◌<◌, ◌≤◌, refl, inl, inr, Bool, true, false, ◌&&◌, List, [], ◌∷◌, ◌++◌,
  Option, none, some, arith, ◌==◌, ==_iff, ◌∙◌, ap, length-append, length, Option-cases, take, drop,
}
use rises.Base.Words.{u8}
use rises.Mission.Skills.{Task, get_area_state, set_area_state, get_map_info, get_safety_radius}
use rises.Mission.{
  MissionType, area_access_control, update_geofence_map, Status, active, succeeded, failed,
  cancelled, MissionStatus, Message, mission_started, executing, mission_cancelled, task_failed,
  mission_completed, Worker, ended, created, testing, working, front,
}

-- A listener of the reports, between missions or within one, of which it knows the id, the type and the
-- tasks announced so far.
abbrev pub Listener : Type 0
Listener = Option (ℕ × MissionType × List Task)

abbrev check : Bool → Listener → Option Listener
check true l = some l
check false l = none

abbrev same_task : Task → Task → Bool
same_task (get_area_state i) (get_area_state j) = i == j
same_task (set_area_state i true) (set_area_state j true) = i == j
same_task (set_area_state i false) (set_area_state j false) = i == j
same_task get_map_info get_map_info = true
same_task get_safety_radius get_safety_radius = true
same_task _ _ = false

-- Whether a task is the next of a mission, after those announced: a mission about an area asks for the
-- area's state and then sets it, one about the map asks for the map and then for the radius.
abbrev expects : MissionType → List Task → Task → Bool
expects area_access_control [] (get_area_state i) = true
expects area_access_control (get_area_state i ∷ []) (set_area_state j lock) = i == j
expects update_geofence_map [] get_map_info = true
expects update_geofence_map (get_map_info ∷ []) get_safety_radius = true
expects _ _ _ = false

-- A report within a mission: for the mission's id, with the number of tasks completed so far.
abbrev is_on : ℕ → ℕ → ℕ → ℕ → ℕ → Bool
is_on id now done due total = (id == now) && ((done == due) && (total == 2))

abbrev pub hear :
    Message → Status → Option Task → MissionType → ℕ → ℕ → ℕ → Listener → Option Listener
hear mission_started active (some t) type id done total none =
    check ((done == 0) && ((total == 2) && expects type [] t)) (some (id, type, []))
hear (executing t) active (some u) type id done total (some (now, kind, told)) =
    check (is_on id now done (length told) total && (expects kind told t && same_task t u))
      (some (now, kind, told ++ t ∷ []))
hear (task_failed t) failed (some u) type id done total (some (now, kind, told)) =
    check (is_on id now (done + 1) (length told) total && same_task t u) none
hear mission_cancelled cancelled (some u) type id done total (some (now, kind, told)) =
    check (is_on id now done (length told) total && expects kind told u) none
hear mission_completed succeeded none type id done total (some (now, kind, told)) =
    check (is_on id now done (length told) total && (done == 2)) none
hear _ _ _ _ id done total l = none

abbrev pub heard_by : MissionStatus → Listener → Option Listener
heard_by r =
    hear r.message r.status r.current_task r.mission_type r.mission_id r.completed_tasks
      r.total_tasks

abbrev pub follow : Listener → List MissionStatus → Option Listener
follow l [] = some l
follow l (r ∷ rest) = elim (heard_by r l) [ none ↦ none | some l' ↦ follow l' rest ]

-- Where the listener is, by where the mission's thread is.
abbrev pub heard : Worker → Listener
heard ended = none
heard (created m) = none
heard (testing m ts done) = some (m.id, m.type, take done m.tasks)
heard (working m t ts done) = some (m.id, m.type, take (done + 1) m.tasks)

pub follow-append :
    (l : Listener) (rs : List MissionStatus) (r : MissionStatus) {k k' : Listener}
    → follow l rs ≡ some k
    → heard_by r k ≡ some k'
    → follow l (rs ++ r ∷ []) ≡ some k'
follow-append l [] r {k} {k'} e h = let e' : l ≡ k = cc in rw (e', follow, h) refl
follow-append l (x ∷ rs) r e h = elim (Option-cases (heard_by x l)) [
  | inl bad ↦ cc (rw (bad, follow) at e)
  | inr (k, good) ↦ rw (good, follow) (follow-append k rs r (rw (good, follow) at e) h)
]

-- The tasks of a mission of a type.
pub data IsPlan : MissionType → List Task → Type 0 where
  area_plan :
      (i : ℕ) (lock : Bool)
      → IsPlan area_access_control (get_area_state i ∷ set_area_state i lock ∷ [])
  map_plan : IsPlan update_geofence_map (get_map_info ∷ get_safety_radius ∷ [])

length-plan : (type : MissionType) (tasks : List Task) → IsPlan type tasks → length tasks ≡ 2
length-plan _ _ (area_plan i lock) = refl
length-plan _ _ map_plan = refl

same_task_refl : (t : Task) → same_task t t ≡ true
same_task_refl (get_area_state i) = ground arith
same_task_refl (set_area_state i true) = ground arith
same_task_refl (set_area_state i false) = ground arith
same_task_refl get_map_info = refl
same_task_refl get_safety_radius = refl

-- What the next task of a plan is.
pub record Next (type : MissionType) (tasks ts : List Task) (t : Task) (done : ℕ) : Type 0 where
  pub few : done < 2
  pub due : length (take done tasks) ≡ done
  pub expected : expects type (take done tasks) t ≡ true
  pub told : take (done + 1) tasks ≡ take done tasks ++ t ∷ []
  pub rest : drop (done + 1) tasks ≡ ts

none_left : (n : ℕ) (t : Task) (ts : List Task) → ¬ (drop n [] ≡ t ∷ ts)
none_left zero t ts e = cc
none_left (suc n) t ts e = cc

pub plan-Next :
    (type : MissionType) (tasks ts : List Task) (t : Task) (done : ℕ)
    → IsPlan type tasks
    → drop done tasks ≡ t ∷ ts
    → Next type tasks ts t done
plan-Next _ _ ts t zero (area_plan i lock) e =
    let head : t ≡ get_area_state i = cc in
    let tail : ts ≡ set_area_state i lock ∷ [] = cc in
    rw (head, tail)
      (record { few = omega arith; due = refl; expected = refl; told = refl; rest = refl })
plan-Next _ _ ts t (suc zero) (area_plan i lock) e =
    let head : t ≡ set_area_state i lock = cc in
    let tail : ts ≡ [] = cc in
    rw (head, tail)
      (record {
        few = omega arith;
        due = refl;
        expected = (==_iff i i).1 refl;
        told = refl;
        rest = refl;
      })
plan-Next _ _ ts t (suc (suc n)) (area_plan i lock) e = absurd (none_left n t ts e)
plan-Next _ _ ts t zero map_plan e =
    let head : t ≡ get_map_info = cc in
    let tail : ts ≡ get_safety_radius ∷ [] = cc in
    rw (head, tail)
      (record { few = omega arith; due = refl; expected = refl; told = refl; rest = refl })
plan-Next _ _ ts t (suc zero) map_plan e =
    let head : t ≡ get_safety_radius = cc in
    let tail : ts ≡ [] = cc in
    rw (head, tail)
      (record { few = omega arith; due = refl; expected = refl; told = refl; rest = refl })
plan-Next _ _ ts t (suc (suc n)) map_plan e = absurd (none_left n t ts e)

-- The first task of a plan.
plan-first :
    (type : MissionType) (tasks : List Task)
    → IsPlan type tasks
    → (t : Task) × (front tasks ≡ some t) × (expects type [] t ≡ true)
plan-first _ _ (area_plan i lock) = (get_area_state i, refl, refl)
plan-first _ _ map_plan = (get_map_info, refl, refl)

-- A plan of which no task is left.
plan-over :
    (type : MissionType) (tasks : List Task) (done : ℕ)
    → IsPlan type tasks
    → drop done tasks ≡ []
    → done ≤ 2
    → (done ≡ 2) × (length (take done tasks) ≡ 2)
plan-over _ _ zero (area_plan i lock) e h = cc
plan-over _ _ (suc zero) (area_plan i lock) e h = cc
plan-over _ _ (suc (suc zero)) (area_plan i lock) e h = (refl, refl)
plan-over _ _ (suc (suc (suc n))) (area_plan i lock) e h = absurd (omega arith)
plan-over _ _ zero map_plan e h = cc
plan-over _ _ (suc zero) map_plan e h = cc
plan-over _ _ (suc (suc zero)) map_plan e h = (refl, refl)
plan-over _ _ (suc (suc (suc n))) map_plan e h = absurd (omega arith)

-- What the listener makes of each report.
module _ (type : MissionType) (tasks : List Task) where
  pub opens :
      (id : ℕ)
      → IsPlan type tasks
      → hear mission_started active (front tasks) type id 0 (u8 (length tasks)) none
        ≡ some (some (id, type, []))
  opens id plan =
      let (t, e, first) = plan-first type tasks plan in
      rw (length-plan type tasks plan, e, first) refl

  pub completes :
      (id done : ℕ)
      → IsPlan type tasks
      → drop done tasks ≡ []
      → done ≤ 2
      → hear mission_completed succeeded none type id done
          (u8 (length tasks))
          (some (id, type, take done tasks))
        ≡ some none
  completes id done plan over few =
      let (all, size) = plan-over type tasks done plan over few in
      rw (length-plan type tasks plan, size, all) (ground arith)

  module _ (ts : List Task) (t : Task) (id done : ℕ) (plan : IsPlan type tasks)
      (next : Next type tasks ts t done) where
    pub announces :
        hear
          (executing t)
          active
          (some t)
          type
          id
          done
          (u8 (length tasks))
          (some (id, type, take done tasks))
        ≡ some (some (id, type, take (done + 1) tasks))
    announces =
        rw (length-plan type tasks plan, next.due, next.expected, same_task_refl t, next.told)
          (ground arith)

    pub cancels :
        hear mission_cancelled cancelled
          (some t)
          type
          id
          done
          (u8 (length tasks))
          (some (id, type, take done tasks))
        ≡ some none
    cancels = rw (length-plan type tasks plan, next.due, next.expected) (ground arith)

    pub fails :
        hear
          (task_failed t)
          failed
          (some t)
          type
          id
          done
          (u8 (length tasks))
          (some (id, type, take (done + 1) tasks))
        ≡ some none
    fails =
        let size : length (take (done + 1) tasks) ≡ done + 1 =
          ap length next.told
          ∙ length-append (take done tasks) (t ∷ [])
          ∙ ap (λ n. n + 1) next.due in
        rw (length-plan type tasks plan, size, same_task_refl t) (ground arith)
