-- ===== src/Spatial/Pool.antt =====
-- src/geofence/spatial_node: snapshot_memory_pool.hpp
-- A slot of the pool is the number of the other owners of its snapshot. The three counters are
-- 64-bit; `fetch_add` gives the value before.
use rises.Base.{
  ℕ, zero, suc, ◌+◌, ◌%◌, ◌^◌, ◌≡◌, refl, List, none, some, if◌then◌else◌, get_elem?, arith, ◌==◌,
  Option-cases, inl, inr,
}

pub record SnapshotMemoryPool : Type 0 where
  pub pool : List ℕ
  pub next_slot : ℕ
  pub allocations_from_pool : ℕ
  pub allocations_from_heap : ℕ

abbrev pub pool_size : ℕ
pool_size = 4

-- `snapshot.use_count()` while `snapshot` is the local copy of the pool's pointer: the pool, the copy,
-- and the others.
unfoldable pub use_count : ℕ → ℕ
use_count others = 2 + others

-- Where a snapshot comes from.
pub data Source : Type 0 where
  from_pool : ℕ → Source
  from_heap : Source

unfoldable pub attempt : ℕ → SnapshotMemoryPool → Source × SnapshotMemoryPool
unfolding use_count
attempt zero p =
    (from_heap, record p { allocations_from_heap = (suc p.allocations_from_heap) % 2 ^ 64 })
attempt (suc left) p =
    let slot = p.next_slot % pool_size in
    let q = record p { next_slot = (suc p.next_slot) % 2 ^ 64 } in
    let later = attempt left q in
    elim (get_elem? p.pool slot) [
      | none ↦ later
      | some others ↦
          if use_count others == 1
          then (
            from_pool slot,
            record q { allocations_from_pool = (suc p.allocations_from_pool) % 2 ^ 64 },
          )
          else later
    ]

unfoldable pub acquire : SnapshotMemoryPool → Source × SnapshotMemoryPool
acquire p = attempt pool_size p

attempt-from_heap :
    (left : ℕ) (p : SnapshotMemoryPool)
    → ((attempt left p).0 ≡ from_heap)
      × ((attempt left p).1.allocations_from_pool ≡ p.allocations_from_pool)
unfolding attempt use_count
attempt-from_heap zero p = (refl, refl)
attempt-from_heap (suc left) p =
    let q = record p { next_slot = (suc p.next_slot) % 2 ^ 64 } in
    elim (Option-cases (get_elem? p.pool (p.next_slot % pool_size))) [
      | inl e ↦ rw (attempt, e) (attempt-from_heap left q)
      | inr (others, e) ↦ rw (attempt, e) (ground (arith, attempt-from_heap left q))
    ]

-- The pool never gives a snapshot: `acquire` allocates a new one, whoever holds the others, and so
-- never gives one that a reader or the map still holds.
pub acquire-from_heap :
    (p : SnapshotMemoryPool)
    → ((acquire p).0 ≡ from_heap) × ((acquire p).1.allocations_from_pool ≡ p.allocations_from_pool)
unfolding acquire
acquire-from_heap p = attempt-from_heap pool_size p
