-- ===== src/Mission/Stop.antt =====
-- `STOP_ACTIVITY` and a mission under way.
use rises.Base.{
  ℕ, ◌≡◌, refl, ◌∙◌, Bool, true, false, List, [], ◌∷◌, ◌++◌, arith, All, count_if, count_if-append,
}
use rises.Mission.Skills.{Reply, execute}
use rises.Mission.{
  Status, cancelled, MissionStatus, Callback, free, accepted, joining, Worker, ended, created,
  testing, working, Controller, Action, receives, handles, spawns, begins, tests, finishes, receive,
  respond, handle, spawn, next_task, finish, finish_task, step, run, dispatch, Request, ignored,
  stops, throws, starts, Intent,
}

abbrev is_cancel : Status → Bool
is_cancel cancelled = true
is_cancel _ = false

abbrev pub is_cancelled : MissionStatus → Bool
is_cancelled report = is_cancel report.status

-- A mission that runs, is active, and has no intent past the test of `mission_active_` beside it.
abbrev pub Runs : Worker → Bool → Callback → Type 0
Runs ended active callback = Unit
Runs (created m) active callback = Unit
Runs w active (accepted i) = ⊥
Runs w active callback = active ≡ true

abbrev Kept : Controller → Controller → Type 0
Kept c d =
    Runs d.worker d.mission_active d.callback
    × (count_if is_cancelled d.mission_status ≡ count_if is_cancelled c.mission_status)

receive-Kept :
    (i : Intent) (c : Controller)
    → Runs c.worker c.mission_active c.callback
    → Kept c (receive i c.callback c)
unfolding receive
receive-Kept i c h = ground arith

respond-Kept :
    (r : Request) (now : ℕ) (c : Controller) {i : Intent}
    → c.callback ≡ accepted i
    → Runs c.worker c.mission_active c.callback
    → Kept c (respond r now c)
unfolding respond
respond-Kept ignored now c e h = ground arith
respond-Kept stops now c e h = ground arith
respond-Kept throws now c e h = ground arith
respond-Kept (starts type tasks) now c e h = ground arith

handle-Kept :
    (now : ℕ) (k : Callback) (c : Controller)
    → c.callback ≡ k
    → Runs c.worker c.mission_active c.callback
    → Kept c (handle now k c)
unfolding handle
handle-Kept now (accepted i) c e h = respond-Kept (dispatch i.intent i.payload) now c e h
handle-Kept now free c e h = (h, refl)
handle-Kept now (joining m) c e h = (h, refl)

spawn-Kept :
    (c : Controller)
    → Runs c.worker c.mission_active c.callback
    → Kept c (spawn c.callback c.worker c)
unfolding spawn
spawn-Kept c h = ground arith

-- One more report, of another status.
one_more :
    (l : List MissionStatus) (report : MissionStatus)
    → is_cancelled report ≡ false
    → count_if is_cancelled (l ++ report ∷ []) ≡ count_if is_cancelled l
one_more l report e = count_if-append is_cancelled l (report ∷ []) ∙ rw e (omega arith)

next_task-Kept :
    (w : Worker) (c : Controller)
    → c.worker ≡ w
    → Runs c.worker c.mission_active c.callback
    → Kept c (next_task w c)
unfolding next_task
next_task-Kept (testing m [] n) c e h = (tt, one_more c.mission_status _ refl)
next_task-Kept (testing m (t ∷ ts) n) c e h =
    let going : c.mission_active ≡ true = ground arith in
    rw (going, next_task) (ground arith, one_more c.mission_status _ refl)
next_task-Kept ended c e h = (h, refl)
next_task-Kept (created m) c e h = (h, refl)
next_task-Kept (working m t ts n) c e h = (h, refl)

finish-Kept :
    (ok : Bool) (w : Worker) (c : Controller)
    → c.worker ≡ w
    → Runs c.worker c.mission_active c.callback
    → Kept c (finish ok w c)
unfolding finish
finish-Kept true (working m t ts n) c e h = (ground arith, refl)
finish-Kept false (working m t ts n) c e h = (tt, one_more c.mission_status _ refl)
finish-Kept true _ c e h = (h, refl)
finish-Kept false _ c e h = (h, refl)

finish_task-Kept :
    (r : Reply) (w : Worker) (c : Controller)
    → c.worker ≡ w
    → Runs c.worker c.mission_active c.callback
    → Kept c (finish_task r w c)
unfolding finish_task
finish_task-Kept r (working m t ts n) c e h = finish-Kept (execute t r) (working m t ts n) c e h
finish_task-Kept r ended c e h = (h, refl)
finish_task-Kept r (created m) c e h = (h, refl)
finish_task-Kept r (testing m ts n) c e h = (h, refl)

abbrev pub is_begin : Action → Bool
is_begin begins = true
is_begin _ = false

step-Kept :
    (a : Action) (c : Controller)
    → is_begin a ≡ false
    → Runs c.worker c.mission_active c.callback
    → Kept c (step a c)
unfolding step
step-Kept (receives i) c b h = receive-Kept i c h
step-Kept (handles now) c b h = handle-Kept now c.callback c refl h
step-Kept spawns c b h = spawn-Kept c h
step-Kept begins c b h = cc
step-Kept tests c b h = next_task-Kept c.worker c refl h
step-Kept (finishes r) c b h = finish_task-Kept r c.worker c refl h

-- No intent that arrives while a mission is active can cancel it, STOP_ACTIVITY included: from a
-- mission that runs, with no earlier intent still in the callback, whatever intents, replies and
-- steps of the two threads follow until the next mission begins, no mission is reported as
-- cancelled.
pub stop_ignored :
    (acts : List Action) (c : Controller)
    → Runs c.worker c.mission_active c.callback
    → All (λ a. is_begin a ≡ false) acts
    → count_if is_cancelled (run acts c).mission_status ≡ count_if is_cancelled c.mission_status
unfolding run
stop_ignored [] c h b = refl
stop_ignored (a ∷ acts) c h b =
    let k = step-Kept a c b.0 h in stop_ignored acts (step a c) k.0 b.1 ∙ k.1
