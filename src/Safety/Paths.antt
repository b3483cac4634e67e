-- ===== src/Safety/Paths.antt =====
-- What becomes of the paths that the node receives.
use rises.Base.{
  ℕ, ◌+◌, ◌≡◌, refl, ◌∙◌, inl, inr, Bool, true, false, not, ◌&&◌, ◌||◌, List, [], ◌∷◌, ◌++◌, some,
  arith, ◌==◌, if◌then◌else◌, length, length-append, count_if, count_if-append, Bool-cases,
  Option-cases, Text,
}
use rises.Base.Int.{ℤ}
use rises.Safety.{
  DiagnosticStatus, NodeHealth, Reason, Response, rejected_halted, rejected_unavailable,
  OccupancyGrid, Safety, Event, diagnostics, health_check, obstacles, heatmap, incoming_path,
  answer, error_level, start, respond, halt_system, resume_system, on_status, diagnostics_callback,
  is_silent, check_nodes, health_check_callback, detected_obstacles_callback, heatmap_callback,
  request_validation, path_callback, validation_answer, step, run,
}

abbrev pub is_rejection : Response → Bool
is_rejection rejected_halted = true
is_rejection rejected_unavailable = true
is_rejection _ = false

abbrev pub is_path : {Obstacle Pose : Type 0} → Event Obstacle Pose → Bool
is_path (incoming_path service p) = true
is_path _ = false

module _ {Obstacle Pose : Type 0} where
  -- Paths passed to the validation service, and paths turned away.
  abbrev pub answered : Safety Obstacle Pose → ℕ
  answered s = length s.requests + count_if is_rejection s.response_topic

  answered-halt : (r : Reason) (s : Safety Obstacle Pose) → answered (halt_system r s) ≡ answered s
  unfolding halt_system respond
  answered-halt r s =
      ground (arith, count_if-append is_rejection s.response_topic (Response.halted r ∷ []))

  answered-resume :
      (r : Reason) (s : Safety Obstacle Pose) → answered (resume_system r s) ≡ answered s
  unfolding resume_system respond
  answered-resume r s =
      ground (arith, count_if-append is_rejection s.response_topic (Response.resumed r ∷ []))

  answered-on_status :
      (now : ℕ) (d : DiagnosticStatus) (s : Safety Obstacle Pose)
      → answered (on_status now d s) ≡ answered s
  unfolding on_status
  answered-on_status now d s = elim (Bool-cases (d.level == error_level)) [
    | inl e ↦ rw (e, on_status) (answered-halt _ _)
    | inr e ↦ rw (e, on_status)
  ]

  answered-diagnostics :
      (now : ℕ) (ds : List DiagnosticStatus) (s : Safety Obstacle Pose)
      → answered (diagnostics_callback now ds s) ≡ answered s
  unfolding diagnostics_callback
  answered-diagnostics now [] s = refl
  answered-diagnostics now (d ∷ ds) s =
      answered-diagnostics now ds (on_status now d s) ∙ answered-on_status now d s

  answered-check_nodes :
      (now : ℕ) (ns : List (Text × NodeHealth)) (healthy : Bool) (s : Safety Obstacle Pose)
      → answered (check_nodes now ns healthy s).1 ≡ answered s
  unfolding check_nodes
  answered-check_nodes now [] healthy s = refl
  answered-check_nodes now ((name, health) ∷ ns) healthy s =
      elim (Bool-cases (is_silent now s.node_timeout health)) [
        | inl e ↦ rw (e, check_nodes) (answered-check_nodes now ns false _ ∙ answered-halt _ s)
        | inr e ↦ rw (e, check_nodes) (answered-check_nodes now ns healthy s)
      ]

  answered-health_check :
      (now : ℕ) (s : Safety Obstacle Pose) → answered (health_check_callback now s) ≡ answered s
  unfolding health_check_callback
  answered-health_check now s =
      let c = answered-check_nodes now s.monitored_nodes true s in
      let t = check_nodes now s.monitored_nodes true s in
      elim (Bool-cases (t.0 && t.1.system_halted)) [
        | inl e ↦ rw (e, health_check_callback) (answered-resume _ t.1 ∙ c)
        | inr e ↦ rw (e, health_check_callback) c
      ]

  answered-obstacles :
      (seen : List Obstacle) (s : Safety Obstacle Pose)
      → answered (detected_obstacles_callback seen s) ≡ answered s
  unfolding detected_obstacles_callback respond
  answered-obstacles seen s =
      ground
        (arith, count_if-append is_rejection s.response_topic (Response.alerted (length seen) ∷ []))

  answered-answer :
      (b : Bool) (p : List Pose) (s : Safety Obstacle Pose)
      → answered (validation_answer b p s) ≡ answered s
  unfolding validation_answer respond
  answered-answer true p s =
      ground (arith, count_if-append is_rejection s.response_topic (Response.blocked ∷ []))
  answered-answer false p s =
      ground (arith, count_if-append is_rejection s.response_topic (Response.allowed ∷ []))

  answered-request :
      (service : Bool) (p : List Pose) (s : Safety Obstacle Pose)
      → answered (request_validation service p s) ≡ answered s + 1
  unfolding request_validation respond
  answered-request true p s = ground (arith, length-append s.requests (p ∷ []))
  answered-request false p s =
      let t : Safety Obstacle Pose = record s {
        response_topic = s.response_topic ++ rejected_unavailable ∷ [];
      } in
      answered-halt Reason.service_unavailable t
      ∙ ground (arith, count_if-append is_rejection s.response_topic (rejected_unavailable ∷ []))

module _ {Obstacle Pose : Type 0} (cell_of : OccupancyGrid → Pose → ℤ × ℤ) where
  -- Whatever the heatmap says, a path is passed on for validation if and only if the system is
  -- not halted and the service is there; a missing service halts the system; and no path is
  -- published as validated before the service has answered.
  pub path_callback-requests :
      (service : Bool) (p : List Pose) (s : Safety Obstacle Pose) {t : Safety Obstacle Pose}
      → path_callback cell_of service p s ≡ some t
      → (t.requests ≡ (if not s.system_halted && service then s.requests ++ p ∷ [] else s.requests))
        × (t.system_halted ≡ (s.system_halted || not service))
        × (t.validated_path_topic ≡ s.validated_path_topic)
  unfolding path_callback respond request_validation halt_system
  path_callback-requests service p s e = ground arith

  answered-path :
      (service : Bool) (p : List Pose) (s : Safety Obstacle Pose) {t : Safety Obstacle Pose}
      → path_callback cell_of service p s ≡ some t
      → answered t ≡ answered s + 1
  unfolding path_callback respond
  answered-path service p s e =
      let warned : Safety Obstacle Pose = record s {
        response_topic = s.response_topic ++ Response.overlap_warning ∷ [];
      } in
      ground (
        arith,
        answered-request service p s,
        answered-request service p warned,
        count_if-append is_rejection s.response_topic (Response.overlap_warning ∷ []),
        count_if-append is_rejection s.response_topic (rejected_halted ∷ []),
      )

  answered-step :
      (x : Event Obstacle Pose) (s : Safety Obstacle Pose) {t : Safety Obstacle Pose}
      → step cell_of x s ≡ some t
      → answered t ≡ answered s + (if is_path x then 1 else 0)
  unfolding step
  answered-step (diagnostics now ds) s e = ground (arith, answered-diagnostics now ds s)
  answered-step (health_check now) s e = ground (arith, answered-health_check now s)
  answered-step (obstacles seen) s e = ground (arith, answered-obstacles seen s)
  answered-step (heatmap grid) s e = unfold heatmap_callback in ground arith
  answered-step (incoming_path service p) s e = answered-path service p s e
  answered-step (answer b p) s e = ground (arith, answered-answer b p s)

  answered-run :
      (xs : List (Event Obstacle Pose)) (s : Safety Obstacle Pose) {t : Safety Obstacle Pose}
      → run cell_of xs s ≡ some t
      → answered t ≡ answered s + count_if is_path xs
  unfolding run
  answered-run [] s e = ground arith
  answered-run (x ∷ xs) s {t} e = elim (Option-cases (step cell_of x s)) [
    | inl bad ↦ cc bad
    | inr (u, good) ↦
        ground (arith, answered-step x s good, answered-run xs u (rw (good, run) at e))
  ]

  -- No path is dropped in silence: after any callbacks in any order, the paths received are those
  -- passed to the validation service and those rejected on the response topic.
  pub paths_answered :
      (timeout : ℕ) (threshold : ℤ) (xs : List (Event Obstacle Pose)) {t : Safety Obstacle Pose}
      → run cell_of xs (start timeout threshold) ≡ some t
      → count_if is_path xs ≡ length t.requests + count_if is_rejection t.response_topic
  unfolding start
  paths_answered timeout threshold xs e =
      ground (arith, answered-run xs (start timeout threshold) e)
