-- ===== src/Mission/Reports.antt =====
-- What the missions' reports say, taken together.
use rises.Base.{
  ℕ, ◌+◌, ◌≡◌, ◌≤◌, refl, inl, inr, Bool, true, false, List, [], ◌∷◌, none, some, arith,
  if◌then◌else◌, Bool-cases, Option-cases, drop,
}
use rises.Base.Words.{u8}
use rises.Base.Strings.{bytes, find, is_found}
use rises.Mission.Skills.{Reply, execute}
use rises.Mission.{
  IntentName, start_activity, stop_activity, other_intent, Intent, area_access_control,
  update_geofence_map, Callback, free, accepted, joining, Worker, ended, created, testing, working,
  Controller, Action, receives, handles, spawns, begins, tests, finishes, start, receive, respond,
  handle, spawn, begin_mission, next_task, finish, finish_task, step, run, dispatch, Request,
  ignored, stops, throws, starts, started, build_area_control_mission, build_map_update_mission,
  area_id,
}
use rises.Mission.Listener.{
  follow, heard, follow-append, IsPlan, area_plan, map_plan, plan-Next, opens, completes, announces,
  cancels, fails,
}

-- A mission that starts has a plan.
abbrev Pair : Request → Type 0
Pair (starts type tasks) = IsPlan type tasks
Pair _ = Unit

started-Pair :
    (payload : _) (lock : Bool)
    → Pair (started area_access_control (build_area_control_mission payload lock))
unfolding build_area_control_mission
started-Pair payload lock = elim (Option-cases (area_id payload)) [
  | inl bad ↦ rw (bad, build_area_control_mission) tt
  | inr (id, good) ↦ rw (good, build_area_control_mission) (area_plan id lock)
]

if_Pair : (b : Bool) (r q : Request) → Pair r → Pair q → Pair (if b then r else q)
if_Pair true r q h k = h
if_Pair false r q h k = k

dispatch-Pair : (name : IntentName) (payload : _) → Pair (dispatch name payload)
unfolding dispatch build_map_update_mission
dispatch-Pair start_activity payload =
    let locks = is_found (find (bytes "lock_area") payload) in
    let unlocks = is_found (find (bytes "unlock_area") payload) in
    let maps = is_found (find (bytes "update_map") payload) in
    let lock = started area_access_control (build_area_control_mission payload true) in
    let unlock = started area_access_control (build_area_control_mission payload false) in
    let update = starts update_geofence_map build_map_update_mission in
    if_Pair locks lock (if unlocks then unlock else (if maps then update else ignored))
      (started-Pair payload true)
      (if_Pair unlocks unlock (if maps then update else ignored) (started-Pair payload false)
        (if_Pair maps update ignored map_plan tt))
dispatch-Pair stop_activity payload = tt
dispatch-Pair other_intent payload = tt

abbrev WaitsPair : Callback → Type 0
WaitsPair (joining m) = IsPlan m.type m.tasks
WaitsPair _ = Unit

abbrev WorksPair : Worker → Type 0
WorksPair ended = Unit
WorksPair (created m) = IsPlan m.type m.tasks
WorksPair (testing m ts done) = IsPlan m.type m.tasks × (drop done m.tasks ≡ ts) × (done ≤ 2)
WorksPair (working m t ts done) = IsPlan m.type m.tasks × (drop done m.tasks ≡ t ∷ ts) × (done ≤ 2)

record Told (c : Controller) : Type 0 where
  waits : WaitsPair c.callback
  works : WorksPair c.worker
  told : follow none c.mission_status ≡ some (heard c.worker)

respond-Told : (r : Request) (now : ℕ) (c : Controller) → Pair r → Told c → Told (respond r now c)
unfolding respond
respond-Told ignored now c p h = record { waits = tt; works = h.works; told = h.told }
respond-Told stops now c p h = record { waits = tt; works = h.works; told = h.told }
respond-Told throws now c p h = record { waits = tt; works = h.works; told = h.told }
respond-Told (starts type []) now c p h = record { waits = tt; works = h.works; told = h.told }
respond-Told (starts type (t ∷ ts)) now c p h = record { waits = p; works = h.works; told = h.told }

either-Told : {x y : Controller} (b : Bool) → Told x → Told y → Told (if b then x else y)
either-Told true h k = h
either-Told false h k = k

receive-Told : (i : Intent) (k : Callback) (c : Controller) → Told c → Told (receive i k c)
unfolding receive
receive-Told i free c h =
    either-Told c.mission_active h (record { waits = tt; works = h.works; told = h.told })
receive-Told i (accepted j) c h = h
receive-Told i (joining m) c h = h

handle-Told : (now : ℕ) (k : Callback) (c : Controller) → Told c → Told (handle now k c)
unfolding handle
handle-Told now (accepted i) c h =
    respond-Told (dispatch i.intent i.payload) now c (dispatch-Pair i.intent i.payload) h
handle-Told now free c h = h
handle-Told now (joining m) c h = h

spawn-Told :
    (k : Callback) (w : Worker) (c : Controller)
    → c.callback ≡ k
    → c.worker ≡ w
    → Told c
    → Told (spawn k w c)
unfolding spawn
spawn-Told (joining m) ended c e f h = record {
  waits = tt;
  works = rw e at h.waits;
  told = rw f at h.told;
}
spawn-Told free w c e f h = h
spawn-Told (accepted i) w c e f h = h
spawn-Told (joining m) (created n) c e f h = h
spawn-Told (joining m) (testing n ts done) c e f h = h
spawn-Told (joining m) (working n t ts done) c e f h = h

begin-Told : (w : Worker) (c : Controller) → c.worker ≡ w → Told c → Told (begin_mission w c)
unfolding begin_mission
begin-Told (created m) c e h =
    let plan : IsPlan m.type m.tasks = rw e at h.works in
    record {
      waits = h.waits;
      works = (plan, refl, omega arith);
      told =
          follow-append none c.mission_status _ (rw e at h.told) (opens m.type m.tasks m.id plan);
    }
begin-Told ended c e h = h
begin-Told (testing m ts done) c e h = h
begin-Told (working m t ts done) c e h = h

next-Told : (w : Worker) (c : Controller) → c.worker ≡ w → Told c → Told (next_task w c)
unfolding next_task
next-Told (testing m [] done) c e h =
    let (plan, over, few) : IsPlan m.type m.tasks × (drop done m.tasks ≡ []) × (done ≤ 2) =
      rw e at h.works in
    record {
      waits = h.waits;
      works = tt;
      told =
          follow-append none c.mission_status _ (rw e at h.told)
            (completes m.type m.tasks m.id done plan over few);
    }
next-Told (testing m (t ∷ ts) done) c e h =
    let (plan, left, few) : IsPlan m.type m.tasks × (drop done m.tasks ≡ t ∷ ts) × (done ≤ 2) =
      rw e at h.works in
    let next = plan-Next m.type m.tasks ts t done plan left in
    elim (Bool-cases c.mission_active) [
      | inl go ↦
          rw (go, next_task)
            (record {
              waits = h.waits;
              works = (plan, left, few);
              told =
                  follow-append none c.mission_status _ (rw e at h.told)
                    (announces m.type m.tasks ts t m.id done plan next);
            })
      | inr off ↦
          rw (off, next_task)
            (record {
              waits = h.waits;
              works = tt;
              told =
                  follow-append none c.mission_status _ (rw e at h.told)
                    (cancels m.type m.tasks ts t m.id done plan next);
            })
    ]
next-Told ended c e h = h
next-Told (created m) c e h = h
next-Told (working m t ts done) c e h = h

finish-Told :
    (ok : Bool) (w : Worker) (c : Controller) → c.worker ≡ w → Told c → Told (finish ok w c)
unfolding finish
finish-Told true (working m t ts done) c e h =
    let (plan, left, few) : IsPlan m.type m.tasks × (drop done m.tasks ≡ t ∷ ts) × (done ≤ 2) =
      rw e at h.works in
    let next = plan-Next m.type m.tasks ts t done plan left in
    let small : u8 (done + 1) ≡ done + 1 = ground arith in
    record {
      waits = h.waits;
      works = rw small (plan, next.rest, omega (arith, next.few));
      told = rw small (rw e at h.told);
    }
finish-Told false (working m t ts done) c e h =
    let (plan, left, few) : IsPlan m.type m.tasks × (drop done m.tasks ≡ t ∷ ts) × (done ≤ 2) =
      rw e at h.works in
    let next = plan-Next m.type m.tasks ts t done plan left in
    record {
      waits = h.waits;
      works = tt;
      told =
          follow-append none c.mission_status _ (rw e at h.told)
            (fails m.type m.tasks ts t m.id done plan next);
    }
finish-Told true ended c e h = h
finish-Told true (created m) c e h = h
finish-Told true (testing m ts done) c e h = h
finish-Told false ended c e h = h
finish-Told false (created m) c e h = h
finish-Told false (testing m ts done) c e h = h

finish_task-Told :
    (r : Reply) (w : Worker) (c : Controller) → c.worker ≡ w → Told c → Told (finish_task r w c)
unfolding finish_task
finish_task-Told r (working m t ts done) c e h =
    finish-Told (execute t r) (working m t ts done) c e h
finish_task-Told r ended c e h = h
finish_task-Told r (created m) c e h = h
finish_task-Told r (testing m ts done) c e h = h

step-Told : (a : Action) (c : Controller) → Told c → Told (step a c)
unfolding step
step-Told (receives i) c h = receive-Told i c.callback c h
step-Told (handles now) c h = handle-Told now c.callback c h
step-Told spawns c h = spawn-Told c.callback c.worker c refl refl h
step-Told begins c h = begin-Told c.worker c refl h
step-Told tests c h = next-Told c.worker c refl h
step-Told (finishes r) c h = finish_task-Told r c.worker c refl h

run-Told : (acts : List Action) (c : Controller) → Told c → Told (run acts c)
unfolding run
run-Told [] c h = h
run-Told (a ∷ acts) c h = run-Told acts (step a c) (step-Told a c h)

-- The reports that any interleaving of the two threads publishes are accepted by the listener: each
-- mission opens with one report, which names its first task; it announces its two tasks, those that
-- its type asks for, in order, each with the number of tasks completed before it; and it is closed
-- by exactly one report before the next mission opens: as succeeded after both, as failed at the task
-- announced last, or as cancelled before the next one.
pub reports_in_order :
    (acts : List Action)
    → follow none (run acts start).mission_status ≡ some (heard (run acts start).worker)
unfolding start
reports_in_order acts = (run-Told acts start (record { waits = tt; works = tt; told = refl })).told
