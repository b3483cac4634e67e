-- ===== src/Latency/Actions.antt =====
-- Each action of `record` and of `writerLoop` keeps the invariant.
use Prim.Native.Nat.{bit_and}
use rises.Base.{
  ℕ, ◌+◌, ◌-◌, ◌%◌, ◌≤◌, ◌<◌, ◌≡◌, refl, Bool, true, false, some, arith, length, get_elem?,
  Bool-cases, inl, inr, ◌==◌, ◌↔◌, ◌≢◌, ◌∙◌, sym, length-set, get_elem?-set_self, get_elem?-set_ne,
  lt→ltb, length-append, take-append, take-suc, get_elem?_total, if◌then◌else◌, [], ◌∷◌, ◌++◌,
  get_elem?-append_left, get_elem?-append_end,
}
use native.Mathlib.Nat.{mod-lt}
use native.Mathlib.Numerals.{add-one}
use native.Mathlib.Decide.{dec_lt}
use rises.Base.Words.{u64}
use rises.Latency.{
  LatencySample, Producer, ready, loading, checked, filled, Consumer, waiting, polling, draining,
  closed, System, begin_record, check_room, fill_slot, publish, load_running, poll, drain, Action,
  step, records, checks, fills, publishes, loads, polls, drains, stops,
}
use rises.Latency.Invariant.{IsCapacity, Counts, ProducerOk, ConsumerOk, Window, Holds, Inv}

u64_suc : {w : ℕ} (n : ℕ) → w ≡ u64 n → u64 (w + 1) ≡ u64 (n + 1)
u64_suc n h = omega arith

-- The full test is true of a full buffer alone.
full_iff :
    (size p r : ℕ)
    → 0 < size
    → r ≤ p
    → p < r + size
    → ((p + 1) % size ≡ r % size) ↔ (p + 1 ≡ r + size)
full_iff size p r pos low high = (λ h. grind arith, λ h. grind arith)

-- Two counts less than `size` apart have different slots.
mod_ne : (size i j : ℕ) → i < j → j < i + size → j % size ≢ i % size
mod_ne size i j low high h = grind arith

module _ {size : ℕ} (cap : IsCapacity size) where
  begin_record-Holds :
      (sample : LatencySample) (p : Producer) {s : System} {g : Counts}
      → Holds size s g
      → ProducerOk size s.buffer g p
      → Holds size (begin_record sample p s) g
  unfolding begin_record
  begin_record-Holds sample ready h ok = ground arith
  begin_record-Holds sample _ h ok = h

  -- The slot of a count, found from its 64-bit remainder.
  slot : {mask w : ℕ} (n : ℕ) → mask ≡ size - 1 → w ≡ u64 n → bit_and w mask ≡ n % size
  slot n m h = rw (m, h, cap.masked (u64 n), cap.wrapped n)

  check_room-Holds :
      (p : Producer) {s : System} {g : Counts}
      → Holds size s g
      → ProducerOk size s.buffer g p
      → Holds size (check_room p s) g
  unfolding check_room
  check_room-Holds (loading w sample) {s} {g} h ok = ground (
    arith,
    slot (g.published + 1) h.mask_ok (u64_suc g.published ok),
    slot g.released h.mask_ok h.read_ok,
    full_iff size g.published g.released,
  )
  check_room-Holds _ h ok = h

  fill_slot-Holds :
      (p : Producer) {s : System} {g : Counts}
      → Holds size s g
      → ProducerOk size s.buffer g p
      → Holds size (fill_slot p s) g
  unfolding fill_slot
  fill_slot-Holds (checked w sample) {s} {g} h (at_count, room) =
      let i : ℕ = g.published % size in
      let here : bit_and w s.mask ≡ i = slot g.published h.mask_ok at_count in
      let inside : i < length s.buffer =
        omega (arith, h.room, mod-lt g.published {m = size} (omega (arith, cap.positive))) in
      rw (here, fill_slot)
        (record {
          mask_ok = h.mask_ok;
          room = length-set s.buffer i sample ∙ h.room;
          write_ok = h.write_ok;
          read_ok = h.read_ok;
          counted = h.counted;
          behind = h.behind;
          ahead = h.ahead;
          fits = h.fits;
          file_ok = h.file_ok;
          written_ok = h.written_ok;
          producer_ok = (at_count, room, get_elem?-set_self s.buffer i sample inside);
          consumer_ok = h.consumer_ok;
          window = λ j low high.
              get_elem?-set_ne s.buffer sample
                (mod_ne size j g.published high (omega (arith, h.behind)))
              ∙ h.window j low high;
          no_fault = rw (lt→ltb _ _ inside) h.no_fault;
        })
  fill_slot-Holds _ h ok = h

  publish-Holds :
      (p : Producer) {s : System} {g : Counts}
      → Holds size s g
      → ProducerOk size s.buffer g p
      → Inv size (publish p s)
  unfolding publish
  publish-Holds (filled w sample) {s} {g} h (at_count, room, here) = (
    record g { published = g.published + 1 },
    record {
      mask_ok = h.mask_ok;
      room = h.room;
      write_ok = u64_suc g.published at_count;
      read_ok = h.read_ok;
      counted = omega (arith, h.counted, length-append s.accepted (sample ∷ []));
      behind = h.behind;
      ahead = omega (arith, h.ahead);
      fits = room;
      file_ok =
          h.file_ok
          ∙ sym
              (take-append g.current s.accepted (sample ∷ []) (omega (arith, h.counted, h.ahead)));
      written_ok = h.written_ok;
      producer_ok = tt;
      consumer_ok = consumer (s.consumer) h.consumer_ok;
      window = window;
      no_fault = h.no_fault;
    },
  )
    where
      consumer :
          (c : Consumer) → ConsumerOk g c → ConsumerOk (record g { published = g.published + 1 }) c
      consumer waiting k = k
      consumer (polling b) k = k
      consumer (draining c v f) k = omega (arith, k)
      consumer closed k = k

      window : Window size s.buffer (s.accepted ++ sample ∷ []) g.current (g.published + 1)
      window i low high = elim (dec_lt i g.published) [
        | yes old ↦
            h.window i low old
            ∙ sym (get_elem?-append_left s.accepted (sample ∷ []) i (omega (arith, h.counted)))
        | no new ↦
            let e : i ≡ g.published = omega arith in
            rw (e, here) (sym (rw (← h.counted) (get_elem?-append_end s.accepted sample)))
      ]
  publish-Holds _ {s} {g} h ok = (g, h)

  load_running-Holds :
      (c : Consumer) {s : System} {g : Counts}
      → Holds size s g
      → ConsumerOk g c
      → Holds size (load_running c s) g
  unfolding load_running
  load_running-Holds waiting h ok = ground arith
  load_running-Holds _ h ok = h

  pub poll-Holds :
      (c : Consumer) {s : System} {g : Counts}
      → Holds size s g
      → ConsumerOk g c
      → Inv size (poll c s)
  unfolding poll
  poll-Holds (polling true) {s} {g} h ok = (record g { goal = g.published }, ground arith)
  poll-Holds (polling false) {s} {g} h ok = (record g { goal = g.published }, ground arith)
  poll-Holds _ {s} {g} h ok = (g, h)

  -- A round that writes the next sample to the file.
  pub drain-next :
      (v w : ℕ) (final : Bool) {s : System} {g : Counts}
      → Holds size s g
      → ConsumerOk g (draining v w final)
      → (v == w) ≡ false
      → Holds size (drain (draining v w final) s) (record g { current = g.current + 1 })
  unfolding drain
  drain-next v w final {s} {g} h (at_count, at_goal, low, high) e =
      let below : g.current < g.goal = ground arith in
      let (sample, next) = get_elem?_total s.accepted g.current (omega (arith, h.counted)) in
      let read : get_elem? s.buffer (bit_and v s.mask) ≡ some sample =
        rw (slot g.current h.mask_ok at_count)
          (h.window g.current (omega arith) (omega arith) ∙ next) in
      rw (e, read, drain)
        (record {
          mask_ok = h.mask_ok;
          room = h.room;
          write_ok = h.write_ok;
          read_ok = h.read_ok;
          counted = h.counted;
          behind = omega (arith, h.behind);
          ahead = omega (arith, h.ahead);
          fits = h.fits;
          file_ok = rw (h.file_ok, add-one) (sym (take-suc g.current s.accepted next));
          written_ok = omega (arith, h.written_ok);
          producer_ok = producer s.producer h.producer_ok;
          consumer_ok = (u64_suc g.current at_count, at_goal, omega arith, omega arith);
          window = λ i l u. h.window i (omega arith) u;
          no_fault = h.no_fault;
        })
    where
      producer :
          (p : Producer)
          → ProducerOk size s.buffer g p
          → ProducerOk size s.buffer (record g { current = g.current + 1 }) p
      producer ready k = k
      producer (loading _ _) k = k
      producer (checked _ _) k = k
      producer (filled _ _) k = k

  -- The end of a drain: `read_idx_` takes over what has been written.
  pub drain_end :
      (v w : ℕ) (final : Bool) {s : System} {g : Counts}
      → Holds size s g
      → ConsumerOk g (draining v w final)
      → (v == w) ≡ true
      → Holds size (drain (draining v w final) s) (record g { released = g.current })
  unfolding drain
  drain_end v w final {s} {g} h (at_count, at_goal, low, high) e =
      rw (e, drain)
        (record {
          mask_ok = h.mask_ok;
          room = h.room;
          write_ok = h.write_ok;
          read_ok = at_count;
          counted = h.counted;
          behind = omega arith;
          ahead = omega (arith, h.ahead);
          fits = omega (arith, h.fits, h.behind);
          file_ok = h.file_ok;
          written_ok = h.written_ok;
          producer_ok = producer s.producer h.producer_ok;
          consumer_ok = consumer final;
          window = h.window;
          no_fault = h.no_fault;
        })
    where
      producer :
          (p : Producer)
          → ProducerOk size s.buffer g p
          → ProducerOk size s.buffer (record g { released = g.current }) p
      producer ready k = k
      producer (loading _ _) k = k
      producer (checked _ _) k = (k.0, omega (arith, k.1, h.behind))
      producer (filled _ _) k = (k.0, omega (arith, k.1, h.behind), k.2)

      consumer :
          (f : Bool)
          → ConsumerOk (record g { released = g.current }) (if f then closed else waiting)
      consumer true = refl
      consumer false = refl

  drain-Holds :
      (c : Consumer) {s : System} {g : Counts}
      → Holds size s g
      → ConsumerOk g c
      → Inv size (drain c s)
  unfolding drain
  drain-Holds (draining v w final) {s} {g} h ok = elim (Bool-cases (v == w)) [
    | inl e ↦ (record g { released = g.current }, drain_end v w final h ok e)
    | inr e ↦ (record g { current = g.current + 1 }, drain-next v w final h ok e)
  ]
  drain-Holds _ {s} {g} h ok = (g, h)

  -- No action of either thread, in any order, breaks the invariant.
  pub step-Inv : (a : Action) (s : System) → Inv size s → Inv size (step a s)
  unfolding step
  step-Inv (records sample) s (g, h) = (g, begin_record-Holds sample s.producer h h.producer_ok)
  step-Inv checks s (g, h) = (g, check_room-Holds s.producer h h.producer_ok)
  step-Inv fills s (g, h) = (g, fill_slot-Holds s.producer h h.producer_ok)
  step-Inv publishes s (g, h) = publish-Holds s.producer h h.producer_ok
  step-Inv loads s (g, h) = (g, load_running-Holds s.consumer h h.consumer_ok)
  step-Inv polls s (g, h) = poll-Holds s.consumer h h.consumer_ok
  step-Inv drains s (g, h) = drain-Holds s.consumer h h.consumer_ok
  step-Inv stops s (g, h) = (g, ground arith)
