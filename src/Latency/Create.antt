-- ===== src/Latency/Create.antt =====
-- `LatencyRecorder::create`: the size that the buffer gets. The file and the thread are not modelled here.
use Prim.Native.Nat.{bit_and, bit_or}
use rises.Base.{ℕ, ◌+◌, ◌-◌, ◌/◌, ◌^◌, if◌then◌else◌, ltb, ◌==◌}
use rises.Base.Words.{u64}

-- One line of the rounding, `v |= v >> s`.
abbrev pub smear : ℕ → ℕ → ℕ
smear s v = bit_or v (v / 2 ^ s)

unfoldable pub round_up : ℕ → ℕ
round_up n = u64 (smear 16 (smear 8 (smear 4 (smear 2 (smear 1 (n - 1))))) + 1)

-- The tests of `buffer_size`.
unfoldable pub create_size : ℕ → ℕ
create_size buffer_size =
    let size = if ltb buffer_size 64 then 64 else buffer_size in
    if bit_and size (size - 1) == 0 then size else round_up size
