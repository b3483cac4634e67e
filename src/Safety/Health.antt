-- ===== src/Safety/Health.antt =====
-- `diagnosticsCallback` and `healthCheckCallback`: exactly when they halt and resume the system.
use rises.Base.{
  ℕ, ◌-◌, ◌/◌, ◌≡◌, refl, ◌∙◌, inl, inr, Bool, true, false, not, ◌&&◌, ◌||◌, List, [], ◌∷◌, some,
  arith, ◌==◌, any, Bool-cases, Text,
}
use rises.Base.Dict.{lookup, update, lookup-update, text_keys}
use rises.Safety.{
  DiagnosticStatus, NodeHealth, Reason, Safety, error_level, node_name, respond, halt_system,
  resume_system, on_status, diagnostics_callback, is_silent, check_nodes, health_check_callback,
}
use rises.Base.{text_eq_iff}

-- Some node of the list is silent.
abbrev pub some_silent : ℕ → ℕ → List (Text × NodeHealth) → Bool
some_silent now timeout = any λ entry. is_silent now timeout entry.1

abbrev pub some_error : List DiagnosticStatus → Bool
some_error = any λ status. status.level == error_level

module _ {Obstacle Pose : Type 0} where
  halted-halt_system :
      (r : Reason) (s : Safety Obstacle Pose) → (halt_system r s).system_halted ≡ true
  unfolding halt_system
  halted-halt_system r s = ground arith

  timeout-halt_system :
      (r : Reason) (s : Safety Obstacle Pose) → (halt_system r s).node_timeout ≡ s.node_timeout
  unfolding halt_system
  timeout-halt_system r s = ground arith

  nodes-halt_system :
      (r : Reason) (s : Safety Obstacle Pose)
      → (halt_system r s).monitored_nodes ≡ s.monitored_nodes
  unfolding halt_system
  nodes-halt_system r s = ground arith

  check_nodes-silent :
      (now k : ℕ) (ns : List (Text × NodeHealth)) (healthy : Bool) (s : Safety Obstacle Pose)
      → s.node_timeout ≡ k
      → ((check_nodes now ns healthy s).0 ≡ (healthy && not (some_silent now k ns)))
        × ((check_nodes now ns healthy s).1.system_halted
            ≡ (s.system_halted || some_silent now k ns))
        × ((check_nodes now ns healthy s).1.monitored_nodes ≡ s.monitored_nodes)
  unfolding check_nodes
  check_nodes-silent now k [] healthy s e = ground arith
  check_nodes-silent now k ((name, health) ∷ ns) healthy s e =
      let reason = Reason.unresponsive name ((now - health.last_seen) / 1000000000) in
      elim (Bool-cases (is_silent now k health)) [
        | inl quiet ↦ ground (
          arith,
          check_nodes-silent now k ns false (halt_system reason s)
              (timeout-halt_system reason s ∙ e),
          halted-halt_system reason s,
          nodes-halt_system reason s,
        )
        | inr heard ↦ ground (arith, check_nodes-silent now k ns healthy s e)
      ]

  -- After a health check the system is halted if and only if some monitored node has been silent
  -- for longer than the timeout, whatever halted it before; and the check forgets no node.
  pub health_check-halted :
      (now : ℕ) (s : Safety Obstacle Pose)
      → ((health_check_callback now s).system_halted
          ≡ some_silent now s.node_timeout s.monitored_nodes)
        × ((health_check_callback now s).monitored_nodes ≡ s.monitored_nodes)
  unfolding health_check_callback resume_system respond
  health_check-halted now s =
      ground (arith, check_nodes-silent now s.node_timeout s.monitored_nodes true s refl)

  on_status-halted :
      (now : ℕ) (d : DiagnosticStatus) (s : Safety Obstacle Pose)
      → (on_status now d s).system_halted ≡ (s.system_halted || (d.level == error_level))
  unfolding on_status halt_system respond
  on_status-halted now d s = ground arith

  -- A diagnostics message halts the system if it reports an error of some node, and otherwise
  -- leaves it as it was: no message resumes the system.
  pub diagnostics-halted :
      (now : ℕ) (ds : List DiagnosticStatus) (s : Safety Obstacle Pose)
      → (diagnostics_callback now ds s).system_halted ≡ (s.system_halted || some_error ds)
  unfolding diagnostics_callback
  diagnostics-halted now [] s = ground arith
  diagnostics-halted now (d ∷ ds) s =
      ground (arith, diagnostics-halted now ds (on_status now d s), on_status-halted now d s)

  nodes-on_status :
      (now : ℕ) (d : DiagnosticStatus) (s : Safety Obstacle Pose)
      → (on_status now d s).monitored_nodes
        ≡ update
            (node_name d.name)
            (record { level = d.level; last_seen = now })
            (λ _. record { level = d.level; last_seen = now })
            s.monitored_nodes
  unfolding on_status halt_system respond
  nodes-on_status now d s = ground arith

  -- An error halts the system, and the next health check lifts the halt though the node's last
  -- report is still the error: it looks at the age of the reports alone. This holds whenever all
  -- monitored nodes have reported within the timeout at the time of the check.
  pub health_check_forgets_error :
      (now later : ℕ) (d : DiagnosticStatus) (s : Safety Obstacle Pose)
      → d.level ≡ error_level
      → some_silent later (on_status now d s).node_timeout (on_status now d s).monitored_nodes
        ≡ false
      → let t = diagnostics_callback now (d ∷ []) s in
        let u = health_check_callback later t in
        (t.system_halted ≡ true)
        × (u.system_halted ≡ false)
        × (lookup (node_name d.name) u.monitored_nodes
            ≡ some (record { level = error_level; last_seen = now }))
  unfolding diagnostics_callback
  health_check_forgets_error now later d s e quiet =
      let t = on_status now d s in
      let check = health_check-halted later t in
      let name = node_name d.name in
      let health : NodeHealth = record { level = d.level; last_seen = now } in
      (
        ground (arith, on_status-halted now d s),
        check.0 ∙ quiet,
        rw (check.1, nodes-on_status now d s)
            (lookup-update name name health (λ _. health) s.monitored_nodes
              ∙ rw ((text_eq_iff name name).1 refl) (rw e refl)),
      )
