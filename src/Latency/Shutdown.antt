-- ===== src/Latency/Shutdown.antt =====
-- The final drain of `writerLoop`, after `running_` was seen to be false.
use rises.Base.{
  ℕ, zero, suc, ◌+◌, ◌-◌, ◌^◌, ◌≤◌, ◌≡◌, refl, ap, ◌∙◌, Bool, true, false, List, ◌∷◌, arith, length,
  take, replicate, if◌then◌else◌, ◌==◌, take_all, length-take,
}
use rises.Base.Words.{u64}
use rises.Latency.{
  Consumer, polling, draining, waiting, closed, System, poll, drain, Action, polls, drains, step,
  run, start,
}
use rises.Latency.Invariant.{IsCapacity, Counts, ConsumerOk, Holds, Inv}
use rises.Latency.Actions.{drain-next, drain_end}
use rises.Latency.Runs.{power-IsCapacity, start-Inv, run-Inv}

step_at : (s : System) {c : Consumer} → s.consumer ≡ c → step drains s ≡ drain c s
unfolding step
step_at s e = ap (λ c. drain c s) e

drain-consumer_end :
    (v w : ℕ) (final : Bool) (s : System)
    → (v == w) ≡ true
    → (drain (draining v w final) s).consumer ≡ (if final then closed else waiting)
unfolding drain
drain-consumer_end v w final s e = rw (e, drain)

drain-consumer_next :
    (v w : ℕ) (final : Bool) (s : System)
    → (v == w) ≡ false
    → (drain (draining v w final) s).consumer ≡ draining (u64 (v + 1)) w final
unfolding drain
drain-consumer_next v w final s e = rw (e, drain)

accepted-step_drains : (s : System) → (step drains s).accepted ≡ s.accepted
unfolding step
accepted-step_drains s = go s.consumer
  where
    go : (c : Consumer) → (drain c s).accepted ≡ s.accepted
    go (draining v w f) = ground arith
    go _ = refl

module _ {size : ℕ} (cap : IsCapacity size) where
  at_goal :
      (v w n : ℕ) (final : Bool) (s : System) (g : Counts)
      → Holds size s g
      → ConsumerOk g (draining v w final)
      → g.goal ≡ g.current + n
      → (v == w) ≡ (n == 0)
  at_goal v w n final s g h ok e = ground (arith, h.fits, h.behind, cap.small)

  -- As many rounds as there are samples left, and one more, end the drain.
  drain_rounds :
      (n v w : ℕ) (final : Bool) (s : System) (g : Counts)
      → Holds size s g
      → s.consumer ≡ draining v w final
      → g.goal ≡ g.current + n
      → let t = run (replicate (suc n) drains) s in
        (t.consumer ≡ (if final then closed else waiting)) × (t.file ≡ take g.goal s.accepted)
  unfolding run
  drain_rounds zero v w final s g h at e =
      let ok : ConsumerOk g (draining v w final) = rw at at h.consumer_ok in
      let last : (v == w) ≡ true = at_goal v w 0 final s g h ok e in
      let after = drain_end cap v w final h ok last in
      let kept : (drain (draining v w final) s).accepted ≡ s.accepted =
        rw (step_at s at) at (accepted-step_drains s) in
      rw (step_at s at, run)
        (
          drain-consumer_end v w final s last,
          after.file_ok ∙ rw (kept, e) (ap (λ k. take k s.accepted) (omega arith)),
        )
  drain_rounds (suc n) v w final s g h at e =
      let ok : ConsumerOk g (draining v w final) = rw at at h.consumer_ok in
      let more : (suc n == 0) ≡ false = ground arith in
      let going : (v == w) ≡ false = at_goal v w (suc n) final s g h ok e ∙ more in
      let after = drain-next cap v w final h ok going in
      let kept : (drain (draining v w final) s).accepted ≡ s.accepted =
        rw (step_at s at) at (accepted-step_drains s) in
      let t = drain (draining v w final) s in
      let rest =
        drain_rounds n (u64 (v + 1)) w final t (record g { current = g.current + 1 }) after
          (drain-consumer_next v w final s going) (omega arith) in
      rw (step_at s at, run) (rest.0, rest.1 ∙ rw kept refl)

  step-poll : (s : System) → s.consumer ≡ polling false → step polls s ≡ poll (polling false) s
  unfolding step
  step-poll s e = ap (λ c. poll c s) e

  poll-Holds :
      (s : System) (g : Counts)
      → Holds size s g
      → s.consumer ≡ polling false
      → Holds size (poll (polling false) s) (record g { goal = g.published })
  unfolding poll
  poll-Holds s g h at = ground arith

  poll-consumer :
      (s : System) → (poll (polling false) s).consumer ≡ draining s.read_idx s.write_idx true
  unfolding poll
  poll-consumer s = refl

  same_history : (s : System) → (poll (polling false) s).accepted ≡ s.accepted
  unfolding poll
  same_history s = refl

  pub shutdown_Inv :
      (s : System)
      → Inv size s
      → s.consumer ≡ polling false
      → let t = run (polls ∷ replicate (suc (length s.accepted - length s.file)) drains) s in
        (t.consumer ≡ closed) × (t.file ≡ s.accepted)
  unfolding run
  shutdown_Inv s (g, h) at =
      let left : ℕ = length s.accepted - length s.file in
      let count : length s.file ≡ g.current =
        ap length h.file_ok
        ∙ length-take g.current s.accepted
        ∙ omega (arith, h.counted, h.ahead) in
      let rounds =
        drain_rounds left s.read_idx s.write_idx true (poll (polling false) s)
          (record g { goal = g.published }) (poll-Holds s g h at) (poll-consumer s)
          (omega (arith, count, h.counted, h.ahead)) in
      rw (step-poll s at, run)
        (
          rounds.0,
          rounds.1
              ∙ rw (same_history s) (take_all g.published s.accepted (omega (arith, h.counted))),
        )

-- A writer that has seen `running_` to be false ends with every sample published by then in the
-- file, after one load of the indices, a round for each sample left, and a last one. This holds
-- after any interleaving, over a buffer of 2 ^ k slots, 1 ≤ k ≤ 63, if nothing is recorded during it.
pub shutdown_drains :
    (k : ℕ) (acts : List Action)
    → 1 ≤ k
    → k ≤ 63
    → (run acts (start (2 ^ k))).consumer ≡ polling false
    → let s = run acts (start (2 ^ k)) in
      let t = run (polls ∷ replicate (suc (length s.accepted - length s.file)) drains) s in
      (t.consumer ≡ closed) × (t.file ≡ s.accepted)
shutdown_drains k acts low high at =
    let cap = power-IsCapacity k low high in
    shutdown_Inv cap (run acts (start (2 ^ k))) (run-Inv cap acts _ (start-Inv cap)) at
