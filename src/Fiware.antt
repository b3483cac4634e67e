-- ===== src/Fiware.antt =====
-- src/fiware_bridge: fiware_bridge_node.cpp, the relay of the nodes' messages to the context broker.
-- A JSON message is the data that it is written from; the rounding of coordinates and the boxes of
-- obstacles, which are floating point, are parameters. Times are nanoseconds of the steady clock,
-- from its epoch on.
pub mod Pallets
pub mod Changes
pub mod Health
pub mod Heat
mod Tests
use rises.Base.{
  ℕ, zero, suc, ◌-◌, Bool, true, false, not, ◌&&◌, List, [], ◌∷◌, ◌++◌, Option, none, some,
  if◌then◌else◌, length, take, map, min, ltb, ◌==◌,
}
use rises.Base.Int.{ℤ, pos, to_int}
use rises.Base.Dict.{int_keys, update, erase}
use rises.Spatial.Batch.{MapUpdate, op_delete}

-- What is published when a value changes, and the value last seen, if any.
pub record OnChange : Type 0 where
  pub is_initialized : Bool
  pub last_value : Bool
  pub topic : List Bool

-- `alertCallback` and `readyCallback`, each with fields of its own.
unfoldable pub on_change_callback : Bool → OnChange → OnChange
on_change_callback value s =
    if s.is_initialized && same value s.last_value
    then s
    else record { is_initialized = true; last_value = value; topic = s.topic ++ value ∷ [] }
  where
    same : Bool → Bool → Bool
    same true b = b
    same false b = not b

-- A relay that drops the messages that come too soon after the last one relayed.
pub record Throttled (Message : Type 0) : Type 0 where
  pub last_time : ℕ
  pub sent : List (ℕ × Message)

-- The throttle of `reportCallback`, `odomCallback` and `diagCallback`, with what each publishes.
unfoldable pub throttled_callback :
    {Message : Type 0} → ℕ → ℕ → Message → Throttled Message → Throttled Message
throttled_callback interval now msg s =
    if ltb (now - s.last_time) interval
    then s
    else record { last_time = now; sent = s.sent ++ (now, msg) ∷ [] }

-- The summary of a report.
pub record ObstacleSummary (Segment : Type 0) : Type 0 where
  pub matched_count : ℕ
  pub unmatched_count : ℕ
  pub matched_segments : List Segment
  pub unmatched_segments : List Segment
  pub unmatched_ids : List ℤ

unfoldable pub summary_of :
    {Obstacle Segment : Type 0}
    → (Obstacle → Segment)
    → (Obstacle → ℤ)
    → ℕ
    → ℕ
    → List Obstacle
    → List Obstacle
    → ObstacleSummary Segment
summary_of segment_of id_of max_matched max_unmatched matched unmatched = record {
  matched_count = length matched;
  unmatched_count = length unmatched;
  matched_segments = map segment_of (take (min (length matched) max_matched) matched);
  unmatched_segments = map segment_of (take (min (length unmatched) max_unmatched) unmatched);
  unmatched_ids = map id_of (take (min (length unmatched) max_unmatched) unmatched);
}

-- What is published of the pallets: how many there are, and a rectangle each, without the ids.
pub record PalletMessage (Rectangle : Type 0) : Type 0 where
  pub count : ℤ
  pub rectangles : List Rectangle

-- The pallets, whether they have changed since they were last published, and the messages sent.
pub record PalletMap (Aabb Rectangle : Type 0) : Type 0 where
  pub pallet_map : List (ℤ × Aabb)
  pub pallet_map_dirty : Bool
  pub last_pallet_push_time : ℕ
  pub map_obstacles_topic : List (PalletMessage Rectangle)

abbrev pub two_seconds : ℕ
two_seconds = 2000000000

module _ {Obstacle Aabb : Type 0} (aabb_of : Obstacle → Aabb) where
  unfoldable pub apply_pallets : List (MapUpdate Obstacle) → List (ℤ × Aabb) → List (ℤ × Aabb)
  apply_pallets [] pallets = pallets
  apply_pallets (u ∷ rest) pallets = apply_pallets rest (
      if u.operation == op_delete
      then erase u.id pallets
      else update u.id (aabb_of u.obstacle) (λ _. aabb_of u.obstacle) pallets)

-- The rounding of a box to millimetres is a parameter.
module _ {Aabb Rectangle : Type 0} (rounded : Aabb → Rectangle) where
  abbrev pub message_of : List (ℤ × Aabb) → PalletMessage Rectangle
  message_of pallets = record {
    count = to_int (pos (length pallets));
    rectangles = map (λ entry. rounded entry.1) pallets;
  }

  unfoldable pub push_pallet_map : PalletMap Aabb Rectangle → PalletMap Aabb Rectangle
  push_pallet_map s =
      if s.pallet_map_dirty
      then record s {
        pallet_map_dirty = false;
        map_obstacles_topic = s.map_obstacles_topic ++ message_of s.pallet_map ∷ [];
      }
      else s

  -- The part of `ddsTriggerCallback` that is about the pallets.
  unfoldable pub dds_trigger : PalletMap Aabb Rectangle → PalletMap Aabb Rectangle
  dds_trigger s = push_pallet_map (record s { pallet_map_dirty = true; last_pallet_push_time = 0 })

  -- The loop of `loadPalletsFromJson`.
  unfoldable pub load_all : List (ℤ × Aabb) → List (ℤ × Aabb) → List (ℤ × Aabb)
  load_all [] pallets = pallets
  load_all ((id, aabb) ∷ rest) pallets = load_all rest (update id aabb (λ _. aabb) pallets)

  -- `loadPalletsFromJson`, for a file whose entries are read.
  unfoldable pub load_pallets :
      List (ℤ × Aabb) → PalletMap Aabb Rectangle → PalletMap Aabb Rectangle
  load_pallets entries s =
      push_pallet_map
        (record s { pallet_map = load_all entries s.pallet_map; pallet_map_dirty = true })

module _ {Obstacle Aabb Rectangle : Type 0} (aabb_of : Obstacle → Aabb)
    (rounded : Aabb → Rectangle) where
  unfoldable pub map_updates_callback :
      ℕ → List (MapUpdate Obstacle) → PalletMap Aabb Rectangle → PalletMap Aabb Rectangle
  map_updates_callback now updates s =
      let changed = record s {
        pallet_map = apply_pallets aabb_of updates s.pallet_map;
        pallet_map_dirty = true;
      } in
      if ltb (now - s.last_pallet_push_time) two_seconds
      then changed
      else push_pallet_map rounded (record changed { last_pallet_push_time = now })
