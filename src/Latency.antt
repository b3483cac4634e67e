-- ===== src/Latency.antt =====
-- src/geofence/common: latency_recorder.hpp and latency_recorder.cpp, a ring buffer between the
-- callback thread, which calls `record`, and the thread of `writerLoop`.
-- Each load or store of an atomic variable, and each access to the buffer, is one action; an
-- interleaving is a list of actions. The CSV file is the list of the samples of its lines.
pub mod Invariant
pub mod Actions
pub mod Runs
pub mod Shutdown
pub mod Create
pub mod Spread
pub mod Rounding
mod Tests
use Prim.Native.Nat.{bit_and}
use rises.Base.{
  ℕ, ◌+◌, ◌-◌, Bool, true, false, List, [], ◌∷◌, ◌++◌, Option, none, some, ltb, ◌==◌, if◌then◌else◌,
  length, get_elem?, set, replicate,
}
use rises.Base.Words.{u64}

-- The numbers are only moved, never computed with here.
pub record LatencySample : Type 0 where
  pub scan_stamp_ns : ℕ
  pub callback_start_ns : ℕ
  pub callback_end_ns : ℕ
  pub matched_count : ℕ
  pub unmatched_count : ℕ

pub record LatencyRecorder : Type 0 where
  pub buffer : List LatencySample
  pub mask : ℕ
  pub write_idx : ℕ
  pub read_idx : ℕ
  pub running : Bool
  pub samples_written : ℕ
  pub samples_dropped : ℕ

-- Where `record` stands: outside; `write_pos` loaded; found room; slot filled.
pub data Producer : Type 0 where
  ready : Producer
  loading : ℕ → LatencySample → Producer
  checked : ℕ → LatencySample → Producer
  filled : ℕ → LatencySample → Producer

-- Where `writerLoop` stands: at the loop's test; with the value of `running`; draining from
-- `current` up to `write_pos`, in the loop or in the final drain; after `fclose`.
pub data Consumer : Type 0 where
  waiting : Consumer
  polling : Bool → Consumer
  draining : ℕ → ℕ → Bool → Consumer
  closed : Consumer

-- `fault` records an access outside the buffer. `accepted` is a history variable: the samples
-- that `record` has published, in order.
pub record System : Type 0 where
  pub recorder : LatencyRecorder
  pub open recorder use *
  pub producer : Producer
  pub consumer : Consumer
  pub file : List LatencySample
  pub accepted : List LatencySample
  pub fault : Bool

abbrev pub blank : LatencySample
blank = record {
  scan_stamp_ns = 0;
  callback_start_ns = 0;
  callback_end_ns = 0;
  matched_count = 0;
  unmatched_count = 0;
}

-- The constructor and `initialize`, for a file that opens.
pub start : ℕ → System
start buffer_size = record {
  recorder = record {
    buffer = replicate buffer_size blank;
    mask = buffer_size - 1;
    write_idx = 0;
    read_idx = 0;
    running = true;
    samples_written = 0;
    samples_dropped = 0;
  };
  producer = ready;
  consumer = waiting;
  file = [];
  accepted = [];
  fault = false;
}

-- `record` loads `write_idx_`.
pub begin_record : LatencySample → Producer → System → System
begin_record sample ready s = record s { producer = loading s.write_idx sample }
begin_record sample _ s = s

-- `record` loads `read_idx_` and tests for a full buffer.
pub check_room : Producer → System → System
check_room (loading write_pos sample) s =
    if bit_and (u64 (write_pos + 1)) s.mask == bit_and s.read_idx s.mask
    then record s {
      recorder = record (s.recorder) { samples_dropped = s.samples_dropped + 1 };
      producer = ready;
    }
    else record s { producer = checked write_pos sample }
check_room _ s = s

-- `record` writes the slot.
pub fill_slot : Producer → System → System
fill_slot (checked write_pos sample) s =
    let slot = bit_and write_pos s.mask in
    record s {
      recorder = record (s.recorder) { buffer = set s.buffer slot sample };
      producer = filled write_pos sample;
      fault = if ltb slot (length s.buffer) then s.fault else true;
    }
fill_slot _ s = s

-- `record` stores `write_idx_`.
pub publish : Producer → System → System
publish (filled write_pos sample) s = record s {
  recorder = record (s.recorder) { write_idx = u64 (write_pos + 1) };
  producer = ready;
  accepted = s.accepted ++ sample ∷ [];
}
publish _ s = s

-- `writerLoop` loads `running_`.
pub load_running : Consumer → System → System
load_running waiting s = record s { consumer = polling s.running }
load_running _ s = s

-- `writerLoop` loads the two indices, and sleeps on an empty buffer unless it shuts down.
pub poll : Consumer → System → System
poll (polling true) s =
    if s.read_idx == s.write_idx
    then record s { consumer = waiting }
    else record s { consumer = draining s.read_idx s.write_idx false }
poll (polling false) s = record s { consumer = draining s.read_idx s.write_idx true }
poll _ s = s

abbrev pub fetch : Option LatencySample → System → System
fetch none s = record s { fault = true }
fetch (some sample) s = record s {
  recorder = record (s.recorder) { samples_written = s.samples_written + 1 };
  file = s.file ++ sample ∷ [];
}

-- One round of a drain loop; at its end `read_idx_` is stored.
pub drain : Consumer → System → System
drain (draining current write_pos final) s =
    if current == write_pos
    then record s {
      recorder = record (s.recorder) { read_idx = current };
      consumer = if final then closed else waiting;
    }
    else let t = fetch (get_elem? s.buffer (bit_and current s.mask)) s in
      record t { consumer = draining (u64 (current + 1)) write_pos final }
drain _ s = s

-- The destructor stores `running_`.
pub stop : System → System
stop s = record s { recorder = record (s.recorder) { running = false } }

pub data Action : Type 0 where
  records : LatencySample → Action
  checks fills publishes loads polls drains stops : Action

-- An action that its thread is not about to make changes nothing.
pub step : Action → System → System
unfolding begin_record check_room fill_slot publish load_running poll drain stop
step (records sample) s = begin_record sample s.producer s
step checks s = check_room s.producer s
step fills s = fill_slot s.producer s
step publishes s = publish s.producer s
step loads s = load_running s.consumer s
step polls s = poll s.consumer s
step drains s = drain s.consumer s
step stops s = stop s

pub run : List Action → System → System
run [] s = s
run (a ∷ rest) s = run rest (step a s)
