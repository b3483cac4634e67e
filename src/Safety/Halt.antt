-- ===== src/Safety/Halt.antt =====
-- When the system is halted, and what the halt topic says.
use rises.Base.{
  ℕ, ◌≡◌, refl, inl, inr, Bool, true, false, not, ◌&&◌, List, [], ◌∷◌, ◌++◌, Option, none, some,
  arith, ◌==◌, Bool-cases, Option-cases, Text,
}
use rises.Base.Dict.{text_keys}
use rises.Base.Int.{ℤ}
use rises.Safety.{
  DiagnosticStatus, NodeHealth, Reason, Response, OccupancyGrid, Safety, Event, diagnostics,
  health_check, obstacles, heatmap, incoming_path, answer, error_level, start, respond, halt_system,
  resume_system, on_status, diagnostics_callback, is_silent, check_nodes, health_check_callback,
  detected_obstacles_callback, heatmap_callback, request_validation, path_callback,
  validation_answer, step, run,
}

-- The state of a listener of the halt topic: `none` after a message that repeats the state.
abbrev pub follow : Bool → List Bool → Option Bool
follow now [] = some now
follow true (true ∷ rest) = none
follow true (false ∷ rest) = follow false rest
follow false (true ∷ rest) = follow true rest
follow false (false ∷ rest) = none

follow-append :
    (now : Bool) (l : List Bool) (b : Bool)
    → follow now l ≡ some b
    → follow now (l ++ not b ∷ []) ≡ some (not b)
follow-append true [] b h = ground arith
follow-append false [] b h = ground arith
follow-append true (true ∷ l) b h = cc
follow-append true (false ∷ l) b h = follow-append false l b h
follow-append false (true ∷ l) b h = follow-append true l b h
follow-append false (false ∷ l) b h = cc

module _ {Obstacle Pose : Type 0} where
  abbrev pub InStep : Safety Obstacle Pose → Type 0
  InStep s = follow false s.halt_topic ≡ some s.system_halted

  halt-InStep : (r : Reason) (s : Safety Obstacle Pose) → InStep s → InStep (halt_system r s)
  unfolding halt_system
  halt-InStep r s h = ground (arith, follow-append false s.halt_topic false)

  resume-InStep : (r : Reason) (s : Safety Obstacle Pose) → InStep s → InStep (resume_system r s)
  unfolding resume_system
  resume-InStep r s h = ground (arith, follow-append false s.halt_topic true)

  on_status-InStep :
      (now : ℕ) (d : DiagnosticStatus) (s : Safety Obstacle Pose)
      → InStep s
      → InStep (on_status now d s)
  unfolding on_status
  on_status-InStep now d s h = elim (Bool-cases (d.level == error_level)) [
    | inl e ↦ rw (e, on_status) (halt-InStep _ _ h)
    | inr e ↦ rw (e, on_status) h
  ]

  diagnostics-InStep :
      (now : ℕ) (ds : List DiagnosticStatus) (s : Safety Obstacle Pose)
      → InStep s
      → InStep (diagnostics_callback now ds s)
  unfolding diagnostics_callback
  diagnostics-InStep now [] s h = h
  diagnostics-InStep now (d ∷ ds) s h =
      diagnostics-InStep now ds (on_status now d s) (on_status-InStep now d s h)

  check_nodes-InStep :
      (now : ℕ) (ns : List (Text × NodeHealth)) (healthy : Bool) (s : Safety Obstacle Pose)
      → InStep s
      → InStep (check_nodes now ns healthy s).1
  unfolding check_nodes
  check_nodes-InStep now [] healthy s h = h
  check_nodes-InStep now ((name, health) ∷ ns) healthy s h =
      elim (Bool-cases (is_silent now s.node_timeout health)) [
        | inl e ↦ rw (e, check_nodes) (check_nodes-InStep now ns false _ (halt-InStep _ s h))
        | inr e ↦ rw (e, check_nodes) (check_nodes-InStep now ns healthy s h)
      ]

  health_check-InStep :
      (now : ℕ) (s : Safety Obstacle Pose) → InStep s → InStep (health_check_callback now s)
  unfolding health_check_callback
  health_check-InStep now s h =
      let c = check_nodes-InStep now s.monitored_nodes true s h in
      let t = check_nodes now s.monitored_nodes true s in
      elim (Bool-cases (t.0 && t.1.system_halted)) [
        | inl e ↦ rw (e, health_check_callback) (resume-InStep _ t.1 c)
        | inr e ↦ rw (e, health_check_callback) c
      ]

  request-InStep :
      (service : Bool) (p : List Pose) (s : Safety Obstacle Pose)
      → InStep s
      → InStep (request_validation service p s)
  unfolding request_validation respond
  request-InStep true p s h = h
  request-InStep false p s h = halt-InStep _ (respond _ s) h

  answer-InStep :
      (b : Bool) (p : List Pose) (s : Safety Obstacle Pose)
      → InStep s
      → InStep (validation_answer b p s)
  unfolding validation_answer
  answer-InStep true p s h = h
  answer-InStep false p s h = h

module _ {Obstacle Pose : Type 0} (cell_of : OccupancyGrid → Pose → ℤ × ℤ) where
  path-InStep :
      (service : Bool) (p : List Pose) (s : Safety Obstacle Pose) {t : Safety Obstacle Pose}
      → InStep s
      → path_callback cell_of service p s ≡ some t
      → InStep t
  unfolding path_callback respond
  path-InStep service p s h e = ground (
    arith,
    request-InStep service p s h,
    request-InStep service p (respond Response.overlap_warning s) h,
  )

  step-InStep :
      (e : Event Obstacle Pose) (s : Safety Obstacle Pose) {t : Safety Obstacle Pose}
      → InStep s
      → step cell_of e s ≡ some t
      → InStep t
  unfolding step
  step-InStep (diagnostics now ds) s h e = ground (arith, diagnostics-InStep now ds s h)
  step-InStep (health_check now) s h e = ground (arith, health_check-InStep now s h)
  step-InStep (obstacles seen) s h e = unfold detected_obstacles_callback respond in ground (arith)
  step-InStep (heatmap grid) s h e = unfold heatmap_callback in ground (arith)
  step-InStep (incoming_path service p) s h e = path-InStep service p s h e
  step-InStep (answer b p) s h e = ground (arith, answer-InStep b p s h)

  run-InStep :
      (es : List (Event Obstacle Pose)) (s : Safety Obstacle Pose) {t : Safety Obstacle Pose}
      → InStep s
      → run cell_of es s ≡ some t
      → InStep t
  unfolding run
  run-InStep [] s h e = ground arith
  run-InStep (x ∷ es) s {t} h e = elim (Option-cases (step cell_of x s)) [
    | inl bad ↦ cc (bad)
    | inr (u, good) ↦ run-InStep es u (step-InStep x s h good) (rw (good, run) at e)
  ]

  -- After any callbacks in any order, the messages on the halt topic alternate, starting with a
  -- halt, and the last of them says whether the system is halted: a listener that starts with the
  -- system running never sees a state repeated, and is always right about it.
  pub halt_topic_agrees :
      (timeout : ℕ) (threshold : ℤ) (es : List (Event Obstacle Pose)) {t : Safety Obstacle Pose}
      → run cell_of es (start timeout threshold) ≡ some t
      → follow false t.halt_topic ≡ some t.system_halted
  unfolding start
  halt_topic_agrees timeout threshold es e = run-InStep es (start timeout threshold) refl e
