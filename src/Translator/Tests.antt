-- ===== src/Translator/Tests.antt =====
-- Messages of one byte each, which insert or delete an obstacle on a map of boxes.
use rises.Base.{
  ℕ, ◌+◌, ◌-◌, ◌*◌, ◌≡◌, refl, Bool, true, false, List, [], ◌∷◌, ◌++◌, Option, none, some,
  if◌then◌else◌, ltb, leb, ◌≤◌, ◌⊎◌, All, Text, arith,
}
use rises.Base.Int.{ℤ, pos}
use rises.Base.Dict.{int_keys, lookup, update, erase}
use rises.Spatial.Shapes.{BoundingBox, Shapes}
use rises.Spatial.Geofence.{Snapshot, empty_map}
use rises.Spatial.Batch.{MapUpdate}
use rises.Spatial.Service.{Stats, returned, apply_updates}
use rises.Spatial.Service.Replayed.{shape_of}
use rises.Delivery.{Client, accepts, unavailable}
use rises.Replay.{TfReplayManager}
use rises.Translator.State.{Messages, Config, Translator, collapse_map, collapse}
use rises.Translator.Run.{
  Action, map_message, timer_start, timer_rest, flush_start, flush_end, order_message, run,
  new_node,
}
use rises.Translator.Applied.{replayed, nothing, or_shape, collapse-replay, flush-replay}
use rises.Translator.Relayed.{run-orders}
use rises.Translator.Orders.{orders_in}
use rises.Translator.Flush.{finish_flush}
use rises.Translator.Ready.{has_delivered, run-signal}
use rises.Translator.Retried.{finish_flush-retry}
use rises.Translator.Progress.{flush_after, flush_after-flushed, flush_after-kept}

abbrev ℕ_boxes : Shapes
ℕ_boxes = record {
  Float = ℕ;
  zero_f = 0;
  half = 1;
  add = λ a b. a + b;
  sub = λ a b. a - b;
  mul = λ a b. a * b;
  sqrt = λ a. a;
  leq = leb;
  less = ltb;
  is_finite = λ a. true;
  Double = ℕ;
  to_float = λ a. a;
  to_double = λ a. a;
  less_double = ltb;
  is_finite_double = λ a. true;
  Geometry = BoundingBox ℕ;
  get_bounding_box = λ g. g;
  Contours = ℕ;
}

abbrev box : ℕ → BoundingBox ℕ
box n = record { min_x = n; min_y = n; max_x = n + 1; max_y = n + 1 }

abbrev put : ℕ → MapUpdate (BoundingBox ℕ)
put n = record { operation = 0; id = pos n; obstacle = box n }

abbrev gone : ℕ → MapUpdate (BoundingBox ℕ)
gone n = record { operation = 1; id = pos n; obstacle = box 0 }

abbrev plain : BoundingBox ℕ → BoundingBox ℕ
plain b = b

abbrev inside : ℕ → BoundingBox ℕ → Bool
inside c b = true

abbrev history : List (MapUpdate (BoundingBox ℕ))
history = put 1 ∷ put 2 ∷ gone 1 ∷ put 3 ∷ put 2 ∷ []

-- A map on which every id has a box.
abbrev full : ℤ → Option (BoundingBox ℕ)
full k = some (box 9)

history-IsKnown : All (λ u. u.operation ≤ 1) history
history-IsKnown = ground arith

-- The deletion of 1 is not delivered.
collapse-replay_example :
    replayed ℕ_boxes plain plain inside (collapse history) full (pos 1)
    ≡ or_shape ℕ_boxes plain plain inside
        (full (pos 1))
        (replayed ℕ_boxes plain plain inside history (nothing ℕ_boxes plain plain inside) (pos 1))
collapse-replay_example =
    collapse-replay ℕ_boxes plain plain inside history full (pos 1) history-IsKnown

kept_after_delete :
    replayed ℕ_boxes plain plain inside (collapse history) full (pos 1) ≡ some (box 9)
unfolding collapse collapse_map update erase
kept_after_delete = refl

flush-replay_example :
    (last : Stats) × (after : Snapshot ℕ_boxes) × (apply_updates ℕ_boxes plain plain inside
        (collapse history)
        (empty_map ℕ_boxes)
      ≡ (returned last, after))
    × ((k : ℤ)
        → shape_of ℕ_boxes after k
          ≡ replayed ℕ_boxes plain plain inside history (nothing ℕ_boxes plain plain inside) k)
unfolding collapse collapse_map update erase
flush-replay_example =
    flush-replay ℕ_boxes plain plain inside history history-IsKnown (omega arith) (refl, (refl, tt))

abbrev read_bytes : Text → List (MapUpdate (BoundingBox ℕ))
read_bytes [] = []
read_bytes (n ∷ s) = put n ∷ read_bytes s

abbrev bytes_sent : Messages
bytes_sent = record {
  Obstacle = BoundingBox ℕ;
  Order = ℕ;
  Content = ℕ;
  Scan = ℕ;
  ValidationObstacle = ℕ;
  parse_obstacle_updates = read_bytes;
  parse_validation_obstacle = λ s. none;
  sort = λ A l. l;
}

abbrev config : Config
config = record {
  enable_buffering = true;
  buffer_timeout = 10;
  bulk_only = false;
  use_service_for_map_updates = true;
  enable_replay = true;
  agv_count = pos 2;
  publish_init_ready = true;
  call_completion_service = true;
  wait_for_geofence_ready = false;
  relay_orders = true;
  service_chunk_size = pos 1;
}

abbrev manager : TfReplayManager ℕ ℕ Text ℕ
manager = record {
  tf = record { buffered = []; replay_index = 0 };
  laserscans = record { buffered = []; replay_index = 0 };
  validations = record { buffered = []; replay_index = 0 };
  is_replaying = false;
  has_laserscan_pub = true;
  has_validation_pub = true;
  tf_topic = [];
  tf_static_topic = [];
  laserscan_topic = [];
  validation_topic = [];
}

abbrev willing : Client
willing chunk = accepts

abbrev missing : Client
missing chunk = unavailable

abbrev filled : Translator bytes_sent
filled = record (new_node bytes_sent config manager) { buffered_updates = put 1 ∷ put 2 ∷ [] }

flush_after-flushed_example :
    let u =
      run bytes_sent config
        (flush_after bytes_sent config 12 13 14 (willing ∷ willing ∷ []) true)
        filled in
    (u.buffer_flushed ≡ true)
    × (u.buffered_updates ≡ [])
    × (u.is_flushing ≡ false)
    × (u.init_ready_published ≡ false)
unfolding new_node collapse collapse_map update
flush_after-flushed_example =
    flush_after-flushed bytes_sent config 12 13 14 (willing ∷ willing ∷ []) true filled refl refl

flush_after-kept_example :
    let u =
      run bytes_sent config
        (flush_after bytes_sent config 12 13 14 (willing ∷ missing ∷ []) true)
        filled in
    (u.buffer_flushed ≡ false)
    × (u.buffered_updates ≡ collapse (put 1 ∷ put 2 ∷ []))
    × (u.is_flushing ≡ false)
unfolding new_node collapse collapse_map update
flush_after-kept_example =
    flush_after-kept bytes_sent config 12 13 14 (willing ∷ missing ∷ []) true filled refl refl

-- Orders before and after the signal, between updates.
abbrev morning : List (Action bytes_sent)
morning =
    order_message (pos 0) 50
    ∷ map_message 1 (7 ∷ [])
    ∷ timer_start
    ∷ timer_rest 20
    ∷ flush_start 21
    ∷ flush_end 22 (willing ∷ willing ∷ []) true
    ∷ timer_start
    ∷ timer_rest 40
    ∷ order_message (pos 1) 60
    ∷ []

run-orders_example :
    let t = run bytes_sent config morning (new_node bytes_sent config manager) in
    t.order_topics ++ (if t.orders_flushed then [] else t.buffered_agv_orders)
    ≡ orders_in bytes_sent config morning
run-orders_example = run-orders bytes_sent config morning manager (refl, (refl, tt))

run-signal_example :
    let topic = (run bytes_sent config morning (new_node bytes_sent config manager)).ready_topic in
    (topic ≡ [])
    ⊎ ((topic ≡ true ∷ [])
        × (has_delivered bytes_sent config morning (new_node bytes_sent config manager) ≡ true))
run-signal_example = run-signal bytes_sent config manager morning

-- A deletion has come while the updates are being delivered.
abbrev delivering : Translator bytes_sent
delivering = record (new_node bytes_sent config manager) {
  flushing = some (collapse history);
  buffered_updates = gone 2 ∷ [];
}

finish_flush-retry_example :
    let buffer =
      (finish_flush bytes_sent config 30 (missing ∷ []) true delivering).buffered_updates in
    (buffer ≡ collapse history ++ gone 2 ∷ [])
    × (lookup (pos 2) (collapse_map buffer [])
        ≡ lookup (pos 2) (collapse_map (history ++ gone 2 ∷ []) []))
unfolding new_node collapse collapse_map update erase
finish_flush-retry_example =
    finish_flush-retry bytes_sent config 30 (missing ∷ []) true history delivering refl refl (pos 2)
