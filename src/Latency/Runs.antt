-- ===== src/Latency/Runs.antt =====
-- What holds of the recorder over every interleaving of its two threads.
use native.Mathlib.Nat.{
  mod-mod_of_dvd, pow-suc, dvd_refl, dvd-mul_right_of_dvd, pow-le-pow_right, zero-add, suc-add,
}
use Prim.Native.Nat.{◌∣◌}
use rises.Base.{
  ℕ, zero, suc, ◌+◌, ◌-◌, ◌^◌, ◌≤◌, ◌<◌, ◌≡◌, refl, ap, ◌∙◌, true, false, List, [], ◌∷◌, arith,
  length, take, replicate, length-take, length-append,
}
use rises.Base.Words.{bit_and-mask}
use rises.Latency.{
  Producer, ready, loading, checked, filled, Consumer, waiting, polling, draining, System,
  begin_record, check_room, fill_slot, publish, load_running, poll, drain, Action, records, checks,
  fills, publishes, loads, polls, drains, stops, step, run, start, blank,
}
use rises.Latency.Invariant.{IsCapacity, Inv}
use rises.Latency.Actions.{step-Inv}

pow-dvd : (k j : ℕ) → 2 ^ k ∣ 2 ^ (j + k)
pow-dvd k zero = rw zero-add (dvd_refl (2 ^ k))
pow-dvd k (suc j) = rw (suc-add, pow-suc 2 (j + k)) (dvd-mul_right_of_dvd (2 ^ k) (pow-dvd k j) 2)

-- A buffer of a power of two slots.
pub power-IsCapacity : (k : ℕ) → 1 ≤ k → k ≤ 63 → IsCapacity (2 ^ k)
power-IsCapacity k low high = record {
  positive = omega (arith, pow-le-pow_right {n = 2} (omega arith) low);
  small = pow-le-pow_right {n = 2} (omega arith) high;
  masked = bit_and-mask k;
  wrapped = λ n. mod-mod_of_dvd (2 ^ k) n divides;
}
  where
    divides : 2 ^ k ∣ 18446744073709551616
    divides =
        let e : 64 - k + k ≡ 64 = omega arith in
        let d : 2 ^ k ∣ 2 ^ (64 - k + k) = pow-dvd k (64 - k) in rw e at d

length-replicate {ℓ} : {A : Type ℓ} (n : ℕ) (a : A) → length (replicate n a) ≡ n
length-replicate zero a = refl
length-replicate (suc n) a = ap suc (length-replicate n a)

pub start-Inv : {size : ℕ} → IsCapacity size → Inv size (start size)
unfolding start
start-Inv {size} cap = (
  record { published = 0; released = 0; current = 0; goal = 0 },
  record {
    mask_ok = refl;
    room = length-replicate size blank;
    write_ok = refl;
    read_ok = refl;
    counted = refl;
    behind = omega arith;
    ahead = omega arith;
    fits = omega (arith, cap.positive);
    file_ok = refl;
    written_ok = refl;
    producer_ok = tt;
    consumer_ok = refl;
    window = λ i low high. absurd (omega arith);
    no_fault = refl;
  },
)

pub run-Inv :
    {size : ℕ}
    → IsCapacity size
    → (acts : List Action) (s : System) → Inv size s
    → Inv size (run acts s)
unfolding run
run-Inv cap [] s h = h
run-Inv cap (a ∷ rest) s h = run-Inv cap rest (step a s) (step-Inv cap a s h)

-- In every interleaving, over a buffer of 2 ^ k slots (1 ≤ k ≤ 63): the file holds the samples
-- published first, each once and in order; `samples_written_` is their number; fewer than 2 ^ k
-- published samples are not yet in the file; no access is outside the buffer.
pub run-file :
    (k : ℕ) (acts : List Action)
    → 1 ≤ k
    → k ≤ 63
    → let s = run acts (start (2 ^ k)) in
      (s.file ≡ take s.samples_written s.accepted)
      × (length s.file ≡ s.samples_written)
      × (length s.accepted < length s.file + 2 ^ k)
      × (s.fault ≡ false)
run-file k acts low high =
    let cap = power-IsCapacity k low high in
    let s = run acts (start (2 ^ k)) in
    let (g, h) = run-Inv cap acts (start (2 ^ k)) (start-Inv cap) in
    let count : length s.file ≡ g.current =
      ap length h.file_ok ∙ length-take g.current s.accepted ∙ omega (arith, h.counted, h.ahead) in
    (
      rw h.written_ok h.file_ok,
      omega (arith, h.written_ok, count),
      omega (arith, count, h.fits, h.behind, h.counted),
      h.no_fault,
    )

-- A call of `record` that has begun and not returned.
abbrev pending : Producer → ℕ
pending ready = 0
pending _ = 1

abbrev begins : Action → Producer → ℕ
begins (records sample) ready = 1
begins _ _ = 0

-- How many calls of `record` begin.
pub attempts : List Action → System → ℕ
attempts [] s = 0
attempts (a ∷ rest) s = begins a s.producer + attempts rest (step a s)

abbrev settled : System → ℕ
settled s = length s.accepted + s.samples_dropped + pending s.producer

settled-step : (a : Action) (s : System) → settled (step a s) ≡ settled s + begins a s.producer
unfolding step
settled-step (records sample) s = records_case s.producer refl
  where
    records_case :
        (p : Producer)
        → s.producer ≡ p
        → settled (begin_record sample p s) ≡ settled s + begins (records sample) p
    records_case ready e = ground arith
    records_case _ e = omega arith
settled-step checks s = checks_case s.producer refl
  where
    checks_case : (p : Producer) → s.producer ≡ p → settled (check_room p s) ≡ settled s + 0
    checks_case (loading w sample) e = ground arith
    checks_case _ e = omega arith
settled-step fills s = fills_case s.producer refl
  where
    fills_case : (p : Producer) → s.producer ≡ p → settled (fill_slot p s) ≡ settled s + 0
    fills_case (checked w sample) e = ground arith
    fills_case _ e = omega arith
settled-step publishes s = publish_case s.producer refl
  where
    publish_case : (p : Producer) → s.producer ≡ p → settled (publish p s) ≡ settled s + 0
    publish_case (filled w sample) e = ground (arith, length-append s.accepted (sample ∷ []))
    publish_case _ e = omega arith
settled-step loads s = loads_case s.consumer
  where
    loads_case : (c : Consumer) → settled (load_running c s) ≡ settled s + 0
    loads_case waiting = omega arith
    loads_case _ = omega arith
settled-step polls s = poll_case s.consumer
  where
    poll_case : (c : Consumer) → settled (poll c s) ≡ settled s + 0
    poll_case (polling true) = ground arith
    poll_case (polling false) = omega arith
    poll_case _ = omega arith
settled-step drains s = drain_case s.consumer
  where
    drain_case : (c : Consumer) → settled (drain c s) ≡ settled s + 0
    drain_case (draining v w f) = ground arith
    drain_case _ = omega arith
settled-step stops s = omega arith

settled-run : (acts : List Action) (s : System) → settled (run acts s) ≡ settled s + attempts acts s
unfolding run attempts
settled-run [] s = omega arith
settled-run (a ∷ rest) s = omega (arith, settled-run rest (step a s), settled-step a s)

-- Every call of `record` publishes its sample or counts one drop: in every interleaving, once no
-- call is under way, the calls begun are the samples published and the samples dropped.
pub attempts-run :
    (size : ℕ) (acts : List Action)
    → (run acts (start size)).producer ≡ ready
    → attempts acts (start size)
      ≡ length (run acts (start size)).accepted + (run acts (start size)).samples_dropped
attempts-run size acts h =
    let before : settled (start size) ≡ 0 = unfold start in refl in
    ground (arith, settled-run acts (start size), before)
