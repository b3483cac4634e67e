-- ===== src/Latency/Invariant.antt =====
-- What holds between two actions of the recorder's threads. The unbounded counts stand beside the
-- 64-bit indices, which are their remainders.
use Prim.Native.Nat.{bit_and}
use rises.Base.{ℕ, ◌+◌, ◌-◌, ◌%◌, ◌^◌, ◌≤◌, ◌<◌, ◌≡◌, false, List, some, length, get_elem?, take}
use rises.Base.Words.{u64}
use rises.Latency.{
  LatencySample, Producer, ready, loading, checked, filled, Consumer, waiting, polling, draining,
  closed, System,
}

-- What makes `& mask_` the position in a buffer of `size` slots.
pub record IsCapacity (size : ℕ) : Type 0 where
  pub positive : 1 < size
  pub small : size ≤ 2 ^ 63
  pub masked : (n : ℕ) → bit_and n (size - 1) ≡ n % size
  pub wrapped : (n : ℕ) → u64 n % size ≡ n % size

-- How many samples have been published, taken over by `read_idx_`, written to the file, and
-- seen by the writer's last load of `write_idx_`.
pub record Counts : Type 0 where
  pub published : ℕ
  pub released : ℕ
  pub current : ℕ
  pub goal : ℕ

abbrev pub ProducerOk : ℕ → List LatencySample → Counts → Producer → Type 0
ProducerOk size buffer g ready = Unit
ProducerOk size buffer g (loading p sample) = p ≡ u64 g.published
ProducerOk size buffer g (checked p sample) =
    (p ≡ u64 g.published) × (g.published + 1 < g.released + size)
ProducerOk size buffer g (filled p sample) =
    (p ≡ u64 g.published)
    × (g.published + 1 < g.released + size)
    × (get_elem? buffer (g.published % size) ≡ some sample)

abbrev pub ConsumerOk : Counts → Consumer → Type 0
ConsumerOk g waiting = g.current ≡ g.released
ConsumerOk g (polling going) = g.current ≡ g.released
ConsumerOk g (draining current write_pos final) =
    (current ≡ u64 g.current)
    × (write_pos ≡ u64 g.goal)
    × (g.current ≤ g.goal)
    × (g.goal ≤ g.published)
ConsumerOk g closed = g.current ≡ g.released

-- The slots that hold what is published and not yet written.
abbrev pub Window : ℕ → List LatencySample → List LatencySample → ℕ → ℕ → Type 0
Window size buffer accepted c p =
    (i : ℕ) → c ≤ i → i < p → get_elem? buffer (i % size) ≡ get_elem? accepted i

pub record Holds (size : ℕ) (s : System) (g : Counts) : Type 0 where
  pub mask_ok : s.mask ≡ size - 1
  pub room : length s.buffer ≡ size
  pub write_ok : s.write_idx ≡ u64 g.published
  pub read_ok : s.read_idx ≡ u64 g.released
  pub counted : length s.accepted ≡ g.published
  pub behind : g.released ≤ g.current
  pub ahead : g.current ≤ g.published
  pub fits : g.published < g.released + size
  pub file_ok : s.file ≡ take g.current s.accepted
  pub written_ok : s.samples_written ≡ g.current
  pub producer_ok : ProducerOk size s.buffer g s.producer
  pub consumer_ok : ConsumerOk g s.consumer
  pub window : Window size s.buffer s.accepted g.current g.published
  pub no_fault : s.fault ≡ false

abbrev pub Inv : ℕ → System → Type 0
Inv size s = (g : Counts) × Holds size s g
