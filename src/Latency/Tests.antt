-- ===== src/Latency/Tests.antt =====
-- The recorder run on a few samples.
use rises.Base.{
  ℕ, ◌+◌, ◌-◌, ◌^◌, suc, ◌<◌, ◌≡◌, refl, false, List, [], ◌∷◌, ◌++◌, arith, length, take, replicate,
  ◌≤◌, ◌*◌, max,
}
use rises.Latency.Create.{round_up, create_size}
use rises.Latency.Rounding.{create_size-NextPower}
use rises.Latency.{
  LatencySample, blank, closed, Action, records, checks, fills, publishes, loads, polls, drains,
  stops, step, run, start,
}
use rises.Latency.Runs.{run-file}
use rises.Latency.Shutdown.{shutdown_drains}

abbrev sample : ℕ → LatencySample
sample n = record blank { scan_stamp_ns = n }

-- One whole call of `record`.
abbrev recorded : ℕ → List Action
recorded n = records (sample n) ∷ checks ∷ fills ∷ publishes ∷ []

-- A buffer of four slots takes three samples; the writer writes one while a second call runs.
abbrev busy : List Action
busy =
    recorded 1
    ++ loads ∷ polls ∷ records (sample 2) ∷ drains ∷ checks ∷ fills ∷ drains ∷ publishes ∷ []

busy_file : (run busy (start (2 ^ 2))).file ≡ sample 1 ∷ []
unfolding run step start
busy_file = refl

-- The fourth sample finds the buffer full.
abbrev overrun : List Action
overrun = recorded 1 ++ (recorded 2 ++ (recorded 3 ++ recorded 4))

overrun_drops : (run overrun (start (2 ^ 2))).samples_dropped ≡ 1
unfolding run step start
overrun_drops = refl

run-file_example :
    ((run busy (start (2 ^ 2))).file
      ≡ take (run busy (start (2 ^ 2))).samples_written (run busy (start (2 ^ 2))).accepted)
    × (length (run busy (start (2 ^ 2))).file ≡ (run busy (start (2 ^ 2))).samples_written)
    × (length (run busy (start (2 ^ 2))).accepted < length (run busy (start (2 ^ 2))).file + 2 ^ 2)
    × ((run busy (start (2 ^ 2))).fault ≡ false)
run-file_example = run-file 2 busy (omega arith) (omega arith)

abbrev stopping : List Action
stopping = recorded 1 ++ (recorded 2 ++ stops ∷ loads ∷ [])

shutdown_drains_example :
    let s = run stopping (start (2 ^ 2)) in
    let t = run (polls ∷ replicate (suc (length s.accepted - length s.file)) drains) s in
    (t.consumer ≡ closed) × (t.file ≡ s.accepted)
shutdown_drains_example =
    shutdown_drains 2 stopping (omega arith) (omega arith) (unfold run step start in refl)

create_size_of_100 : create_size 100 ≡ 128
unfolding create_size round_up
create_size_of_100 = refl

-- Above 2 ^ 32 the lines do not reach all digits.
create_size_too_large : create_size (2 ^ 40 + 1) ≡ 2 ^ 41 - 2 ^ 9 + 1
unfolding create_size round_up
create_size_too_large = refl

create_size-NextPower_example :
    (k : ℕ) × (create_size 100 ≡ 2 ^ k)
    × (max 100 64 ≤ 2 ^ k)
    × (2 ^ k < 2 * max 100 64)
    × (6 ≤ k)
    × (k ≤ 32)
create_size-NextPower_example = create_size-NextPower 100 (omega arith)
