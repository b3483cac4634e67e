-- ===== src/Tasks/Progress.antt =====
-- What a run reports, what it returns, and what it does to the world.
use rises.Base.{
  ℕ, ◌+◌, ◌<◌, ◌≡◌, refl, ◌∙◌, Bool, true, false, List, [], ◌∷◌, ◌++◌, append_assoc, arith,
  if◌then◌else◌, length, Text, Bool-cases, inl, inr,
}
use rises.Base.Words.{u8}
use rises.Tasks.{
  TaskStep, active, succeeded, failed, cancelled, no_steps, task_started, executing, cancelled_at,
  failed_at, completed_all, TaskStatus, TaskRunner, cancel, publish_status, close, report,
  run_steps, run,
}

-- Every step is reached uncancelled and succeeds.
abbrev pub goes_well : {W : Type 0} → List (TaskStep W) → W → Bool
goes_well [] w = true
goes_well (step ∷ rest) w =
    if step.cancel_called
    then false
    else (if (step.execute w).0 then goes_well rest (step.execute w).1 else false)

-- The world after the steps that are reached.
abbrev pub world_after : {W : Type 0} → List (TaskStep W) → W → W
world_after [] w = w
world_after (step ∷ rest) w =
    if step.cancel_called
    then w
    else (if (step.execute w).0 then world_after rest (step.execute w).1 else (step.execute w).1)

module _ (id : ℕ) (mission_type : Text) (total : ℕ) where
  -- The reports on the steps, where the first has `done` steps before it: one for each step that
  -- begins, and one for the end.
  abbrev pub story : {W : Type 0} → ℕ → List (TaskStep W) → W → List TaskStatus
  story done [] w = report id mission_type total succeeded [] done completed_all ∷ []
  story done (step ∷ rest) w =
      if step.cancel_called
      then report id mission_type total cancelled step.name done cancelled_at ∷ []
      else report id mission_type total active step.name done executing
        ∷ (if (step.execute w).0
            then story (done + 1) rest (step.execute w).1
            else report id mission_type total failed step.name done failed_at ∷ [])

  -- All that a run publishes.
  abbrev pub whole_story : {W : Type 0} → List (TaskStep W) → W → List TaskStatus
  whole_story [] w = report id mission_type 0 succeeded [] 0 no_steps ∷ []
  whole_story (step ∷ rest) w =
      report id mission_type total active step.name 0 task_started ∷ story 0 (step ∷ rest) w

  abbrev Ends :
      {W : Type 0} → Bool → List TaskStatus → W → TaskRunner → Bool × TaskRunner × W → Type 0
  Ends result told w r out =
      (out.0 ≡ result)
      × (out.1.status_topic ≡ r.status_topic ++ told)
      × (out.1.is_active ≡ false)
      × (out.2 ≡ w)

  run_steps-Ends :
      {W : Type 0} (done : ℕ) (steps : List (TaskStep W)) (r : TaskRunner) (w : W)
      → done + length steps < 256
      → r.cancel_requested ≡ false
      → Ends
          (goes_well steps w)
          (story done steps w)
          (world_after steps w)
          r
          (run_steps id mission_type total done steps r w)
  unfolding run_steps close publish_status cancel
  run_steps-Ends done [] r w small calm = (refl, refl, refl, refl)
  run_steps-Ends done (step ∷ rest) r w small calm =
      let fits : u8 (done + 1) ≡ done + 1 = ground arith in
      let told =
        publish_status (report id mission_type total active step.name done executing)
          (record r { cancel_requested = false }) in
      let next = run_steps-Ends (done + 1) rest told (step.execute w).1 (omega arith) refl in
      elim (Bool-cases step.cancel_called) [
        | inl e ↦ rw e (refl, refl, refl, refl)
        | inr e ↦ elim (Bool-cases (step.execute w).0) [
          | inl f ↦
              rw (e, calm, f, fits)
                (next.0, next.1 ∙ append_assoc r.status_topic _ _, next.2, next.3)
          | inr f ↦ rw (e, calm, f) (refl, append_assoc r.status_topic _ _, refl, refl)
        ]
      ]

-- A run of fewer than 256 steps publishes the whole story: it is opened once, tells of each step
-- that begins with the number of steps before it, and ends with one last report, at the first
-- step that is cancelled or fails, or after all of them. It returns true exactly when every step is
-- reached uncancelled and succeeds, leaves the runner inactive, and has done what the steps it
-- reached do, in their order; a cancellation from before the run has no effect.
pub run-story :
    {W : Type 0} (id : ℕ) (mission_type : Text) (steps : List (TaskStep W)) (r : TaskRunner) (w : W)
    → length steps < 256
    → let out = run id mission_type steps r w in
      (out.0 ≡ goes_well steps w)
      × (out.1.status_topic ≡ r.status_topic ++ whole_story id mission_type (length steps) steps w)
      × (out.1.is_active ≡ false)
      × (out.2 ≡ world_after steps w)
unfolding run close publish_status
run-story id mission_type [] r w small = (refl, refl, refl, refl)
run-story id mission_type (step ∷ rest) r w small =
    let total : u8 (length (step ∷ rest)) ≡ length (step ∷ rest) = ground arith in
    rw total (
      let out =
        run_steps-Ends id mission_type (length (step ∷ rest)) 0 (step ∷ rest) _ w (omega arith)
          refl in
      (out.0, out.1 ∙ append_assoc r.status_topic _ _, out.2, out.3))
