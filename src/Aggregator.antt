-- ===== src/Aggregator.antt =====
-- src/obstacle_aggregator: obstacle_aggregator_node.hpp and obstacle_aggregator_node.cpp.
-- An index is `none` where the code has -1. `hash` is `std::hash<std::string>`, and what an obstacle
-- carries beside its id is of a type of its own. The header of a report is left out.
pub mod Index
pub mod Ids
pub mod Fleet
mod Tests
use rises.Base.{
  ℕ, zero, suc, ◌+◌, ◌-◌, ◌*◌, ◌%◌, Bool, true, false, List, [], ◌∷◌, ◌++◌, Option, none, some, map,
  if◌then◌else◌, length, get_elem?, drop, Text, ltb, leb, ◌==◌,
}
use rises.Base.Words.{u64}
use rises.Base.Strings.{is_digit, stoll}
use rises.Base.Dict.{lookup, update, or_new, text_keys}

abbrev pub id_space_per_agv : ℕ
id_space_per_agv = 1000000

-- The largest `int64_t`, divided by the above.
abbrev pub max_agv_index : ℕ
max_agv_index = 9223372036854

-- The loop of `parseTrailingIndex`: where the digits before a position begin.
pub digit_begin : Text → ℕ → ℕ
digit_begin ns zero = 0
digit_begin ns (suc i) = elim (get_elem? ns i) [
  | none ↦ suc i
  | some c ↦ if is_digit c then digit_begin ns i else suc i
]

abbrev pub in_range : Option ℕ → Option ℕ
in_range none = none
in_range (some value) = if leb max_agv_index value then none else some value

-- The number that stands from a position on.
abbrev pub parse_from : Text → ℕ → Option ℕ
parse_from ns begin =
    if begin == length ns
    then none
    else if ltb 18 (length ns - begin)
    then none
    else in_range (stoll (drop begin ns))

pub parse_trailing_index : Text → Option ℕ
unfolding digit_begin
parse_trailing_index ns =
    if length ns == 0 then none else parse_from ns (digit_begin ns (length ns))

pub record Obstacle (Content : Type 0) : Type 0 where
  pub id : ℕ
  pub content : Content

pub record ObstacleReport (Content : Type 0) : Type 0 where
  pub unmatched_obstacles : List (Obstacle Content)
  pub matched_obstacles : List (Obstacle Content)

pub record ObstacleAggregator (Content : Type 0) : Type 0 where
  pub latest_reports : List (Text × ObstacleReport Content)
  pub agv_index_cache : List (Text × ℕ)
  pub fleet_topic : List (ObstacleReport Content)

pub shift_id : ℕ → ℕ → ℕ
shift_id index id = u64 (id + u64 (index * id_space_per_agv))

module _ {Content : Type 0} where
  pub start : ObstacleAggregator Content
  start = record { latest_reports = []; agv_index_cache = []; fleet_topic = [] }

  -- The obstacles of one vehicle, with the ids that they have in the combined report.
  pub shifted : ℕ → List (Obstacle Content) → List (Obstacle Content)
  unfolding shift_id
  shifted index [] = []
  shifted index (obs ∷ rest) =
      record { id = shift_id index obs.id; content = obs.content } ∷ shifted index rest

  pub report_callback :
      Text → ObstacleReport Content → ObstacleAggregator Content → ObstacleAggregator Content
  report_callback agv_ns msg a = record a {
    latest_reports = update agv_ns msg (λ _. msg) a.latest_reports;
  }

-- A report of a vehicle, or the timer.
pub data Event (Content : Type 0) : Type 0 where
  report : Text → ObstacleReport Content → Event Content
  timer : Event Content

abbrev is_empty : {V : Type 0} → List (Text × V) → Bool
is_empty [] = true
is_empty (x ∷ xs) = false

module _ (hash : Text → ℕ) where
  pub hash_fallback_index : Text → ℕ
  hash_fallback_index ns = u64 (hash ns) % max_agv_index

  module _ {Content : Type 0} where
    pub agv_index_for : Text → ObstacleAggregator Content → ℕ × ObstacleAggregator Content
    unfolding parse_trailing_index hash_fallback_index
    agv_index_for agv_ns a = elim (lookup agv_ns a.agv_index_cache) [
      | some cached ↦ (cached, a)
      | none ↦
          let index = or_new (hash_fallback_index agv_ns) (parse_trailing_index agv_ns) in
          (index, record a { agv_index_cache = update agv_ns index (λ _. index) a.agv_index_cache })
    ]

    -- The loop of `publishCombined`.
    pub combine :
        List (Text × ObstacleReport Content)
        → ObstacleReport Content
        → ObstacleAggregator Content
        → ObstacleReport Content × ObstacleAggregator Content
    unfolding agv_index_for shifted
    combine [] combined a = (combined, a)
    combine ((agv_ns, seen) ∷ rest) combined a =
        let (index, b) = agv_index_for agv_ns a in
        combine rest
          (record {
            unmatched_obstacles =
                combined.unmatched_obstacles ++ shifted index seen.unmatched_obstacles;
            matched_obstacles = combined.matched_obstacles ++ shifted index seen.matched_obstacles;
          })
          b

    pub publish_combined : ObstacleAggregator Content → ObstacleAggregator Content
    unfolding combine
    publish_combined a =
        if is_empty a.latest_reports
        then a
        else let (combined, b) =
            combine a.latest_reports (record { unmatched_obstacles = []; matched_obstacles = [] })
              a in
          record b { fleet_topic = b.fleet_topic ++ combined ∷ [] }

    pub step : Event Content → ObstacleAggregator Content → ObstacleAggregator Content
    unfolding report_callback publish_combined
    step (report agv_ns msg) a = report_callback agv_ns msg a
    step timer a = publish_combined a

    pub run : List (Event Content) → ObstacleAggregator Content → ObstacleAggregator Content
    run [] a = a
    run (e ∷ rest) a = run rest (step e a)
