-- ===== src/Aggregator/Ids.antt =====
-- The ids of the combined report.
use rises.Base.{
  ℕ, ◌/◌, ◌%◌, ◌<◌, ◌≡◌, Option, none, some, arith, Text, length, drop, Option-cases, inl, inr,
}
use rises.Base.Dict.{or_new}
use rises.Base.Strings.{stoll}
use rises.Aggregator.{
  id_space_per_agv, max_agv_index, in_range, parse_from, parse_trailing_index, digit_begin,
  hash_fallback_index, shift_id,
}

in_range-bound : (o : Option ℕ) {v : ℕ} → in_range o ≡ some v → v < max_agv_index
in_range-bound none h = cc
in_range-bound (some w) h = ground arith

parse_from-bound :
    (ns : Text) (begin : ℕ) {v : ℕ} → parse_from ns begin ≡ some v → v < max_agv_index
parse_from-bound ns begin h = ground (arith, in_range-bound (stoll (drop begin ns)))

parse-bound : (ns : Text) {v : ℕ} → parse_trailing_index ns ≡ some v → v < max_agv_index
unfolding parse_trailing_index
parse-bound ns h = ground (arith, parse_from-bound ns (digit_begin ns (length ns)))

-- The index that a namespace has, whatever is in the cache.
abbrev pub agv_index : (Text → ℕ) → Text → ℕ
agv_index hash ns = or_new (hash_fallback_index hash ns) (parse_trailing_index ns)

agv_index-bound : (hash : Text → ℕ) (ns : Text) → agv_index hash ns < max_agv_index
unfolding hash_fallback_index
agv_index-bound hash ns = elim (Option-cases (parse_trailing_index ns)) [
  | inl e ↦ rw e (omega arith)
  | inr (v, e) ↦ rw e (parse-bound ns e)
]

-- No id wraps around: from the id in the combined report of an obstacle whose own id is below
-- 1000000, the index of its vehicle and its own id can be read off. So obstacles of vehicles with
-- different indices never share an id.
pub shift_id-decodes :
    (hash : Text → ℕ) (ns : Text) (id : ℕ)
    → id < id_space_per_agv
    → let sent = shift_id (agv_index hash ns) id in
      (sent / id_space_per_agv ≡ agv_index hash ns) × (sent % id_space_per_agv ≡ id)
unfolding shift_id
shift_id-decodes hash ns id small = let bound = agv_index-bound hash ns in ground (arith, bound)
