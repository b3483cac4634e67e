-- ===== src/Replay/Tests.antt =====
-- Two scans that were recorded in order; sorting leaves them as they are.
use rises.Base.{ℕ, ◌≡◌, refl, true, false, List, [], ◌∷◌, ◌++◌, map, keep, leb, Option, none, arith}
use rises.Replay.{Stream, TfReplayManager, start_replay, run}
use rises.Replay.Scans.{latest, run-scans}

abbrev quiet : {A : Type 0} → Stream A
quiet = record { buffered = []; replay_index = 0 }

abbrev recorded : List (ℕ × ℕ)
recorded = (10, 1) ∷ (20, 2) ∷ []

abbrev manager : TfReplayManager ℕ ℕ ℕ ℕ
manager = record {
  tf = quiet;
  laserscans = record { buffered = recorded; replay_index = 0 };
  validations = quiet;
  is_replaying = false;
  has_laserscan_pub = true;
  has_validation_pub = false;
  tf_topic = [];
  tf_static_topic = [];
  laserscan_topic = [];
  validation_topic = [];
}

abbrev same : (Message : Type 0) → List (ℕ × Message) → List (ℕ × Message)
same Message l = l

abbrev drop_note : ℕ → Option ℕ
drop_note n = none

run-scans_example :
    (run drop_note (5 ∷ 15 ∷ []) (start_replay same manager)).laserscan_topic
    ≡ manager.laserscan_topic ++ map (λ e. e.1) (keep (λ e. leb e.0 (latest 5 (15 ∷ []))) recorded)
run-scans_example =
    run-scans drop_note same 5 (15 ∷ []) manager (omega arith) refl ((omega arith, tt), (tt, tt))
