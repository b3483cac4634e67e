-- ===== src/Translator/Progress.antt =====
-- A buffer that falls silent is flushed, and then the initialisation signal is published.
use rises.Base.{
  ℕ, ◌-◌, ◌≡◌, refl, ◌∙◌, Bool, true, false, not, ◌&&◌, ◌||◌, List, [], ◌∷◌, ◌++◌, some,
  if◌then◌else◌, leb, append-nil, arith,
}
use rises.Spatial.Batch.{MapUpdate}
use rises.Delivery.{Client}
use rises.Delivery.Outcome.{all_accepted, chunk_count, deliver-outcome}
use rises.Translator.State.{Messages, Config, Translator, collapse, is_nil}
use rises.Translator.Flush.{
  buffer_timer_start, request_flush, publish_ready, buffer_timer_rest, begin_flush, deliver_updates,
  flush_succeeded, flush_failed, finish_flush,
}
use rises.Translator.Run.{Action, timer_start, timer_rest, flush_start, flush_end, act, run}

module _ (M : Messages) (c : Config) where
  -- A tick of the timer with nothing under way.
  abbrev pub tick : ℕ → List (Action M)
  tick now = timer_start ∷ timer_rest now ∷ []

  -- The timer's callback finds a buffer that has been silent for long enough.
  abbrev pub is_due : ℕ → Translator M → Bool
  is_due now t =
      c.enable_buffering
      && (not t.is_flushing
          && (not (is_nil t.buffered_updates)
              && (leb c.buffer_timeout (now - t.last_update_wall_time)
                  && (not c.wait_for_geofence_ready || t.all_geofences_ready))))

  tick-requests :
      (now : ℕ) (t : Translator M)
      → is_due now t ≡ true
      → run M c (tick now) t ≡ record t { timer_passed = false; flush_requested = true }
  unfolding run act buffer_timer_start buffer_timer_rest request_flush publish_ready
  tick-requests now t h = ground arith

  -- The node once the flush thread has taken the updates.
  abbrev pub begun : ℕ → Translator M → Translator M
  begun now t = record t {
    flush_requested = false;
    is_flushing = true;
    flushing = some (collapse t.buffered_updates);
    buffered_updates = [];
    last_update_wall_time = now;
  }

  begin_flush-takes :
      (now : ℕ) (t : Translator M)
      → t.flush_requested ≡ true
      → t.is_flushing ≡ false
      → is_nil t.buffered_updates ≡ false
      → begin_flush M c now t ≡ begun now t
  unfolding begin_flush
  begin_flush-takes now t r f e = ground arith

  -- What is left after a delivery that succeeded.
  finish_flush-delivered :
      (now : ℕ) (clients : List Client) (is_available : Bool) (t : Translator M)
      (updates : List (MapUpdate M.Obstacle))
      → t.flushing ≡ some updates
      → (deliver_updates M c clients updates t).0 ≡ true
      → let u = finish_flush M c now clients is_available t in
        (u.buffer_flushed ≡ true)
        × (u.buffered_updates ≡ t.buffered_updates)
        × (u.is_flushing ≡ false)
        × (u.init_ready_published ≡ t.init_ready_published)
  unfolding finish_flush deliver_updates flush_succeeded
  finish_flush-delivered now clients is_available t updates e d =
      rw (finish_flush, e) (ground arith)

  -- What the clients make of a delivery; a topic takes everything.
  abbrev pub is_delivered : List Client → List (MapUpdate M.Obstacle) → Bool
  is_delivered clients updates =
      if c.use_service_for_map_updates
      then all_accepted clients (chunk_count clients updates c.service_chunk_size) 0
      else true

  pub deliver_updates-outcome :
      (clients : List Client) (updates : List (MapUpdate M.Obstacle)) (t : Translator M)
      → (deliver_updates M c clients updates t).0 ≡ is_delivered clients updates
  unfolding deliver_updates
  deliver_updates-outcome clients updates t =
      ground (arith, deliver-outcome clients updates c.service_chunk_size t.requests)

  -- A tick, and then a whole flush.
  abbrev pub flush_after : ℕ → ℕ → ℕ → List Client → Bool → List (Action M)
  flush_after now start end clients is_available =
      timer_start ∷ timer_rest now ∷ flush_start start ∷ flush_end end clients is_available ∷ []

  -- When the timer finds a buffer that is due, and every client then accepts each chunk of the
  -- collapsed updates (a topic takes all), the flush that follows leaves the buffer empty and the
  -- node marked as flushed, ready for another flush.
  pub flush_after-flushed :
      (now start end : ℕ) (clients : List Client) (is_available : Bool) (t : Translator M)
      → is_due now t ≡ true
      → is_delivered clients (collapse t.buffered_updates) ≡ true
      → let u = run M c (flush_after now start end clients is_available) t in
        (u.buffer_flushed ≡ true)
        × (u.buffered_updates ≡ [])
        × (u.is_flushing ≡ false)
        × (u.init_ready_published ≡ t.init_ready_published)
  unfolding run act
  flush_after-flushed now start end clients is_available t h d =
      let ticked : Translator M = record t { timer_passed = false; flush_requested = true } in
      let taken = begin_flush-takes start ticked refl (ground arith) (ground arith) in
      let first : run M c (tick now) t ≡ ticked = tick-requests now t h in
      let done =
        finish_flush-delivered end clients is_available (begun start ticked)
          (collapse t.buffered_updates) refl
          (deliver_updates-outcome clients (collapse t.buffered_updates) (begun start ticked)
            ∙ d) in
      rw (first, taken) done

  -- When the delivery fails, the collapsed updates wait in the buffer again, and nothing counts as
  -- flushed that did not before.
  pub finish_flush-failed :
      (now : ℕ) (clients : List Client) (is_available : Bool) (t : Translator M)
      (updates : List (MapUpdate M.Obstacle))
      → t.flushing ≡ some updates
      → (deliver_updates M c clients updates t).0 ≡ false
      → let u = finish_flush M c now clients is_available t in
        (u.buffer_flushed ≡ t.buffer_flushed)
        × (u.buffered_updates ≡ updates ++ t.buffered_updates)
        × (u.is_flushing ≡ false)
  unfolding finish_flush deliver_updates flush_failed
  finish_flush-failed now clients is_available t updates e d = rw (finish_flush, e) (ground arith)

  -- When the timer finds a buffer that is due, and some client does not accept some chunk, the
  -- collapsed updates are back in the buffer after the flush, and the node counts as flushed only if it
  -- did before.
  pub flush_after-kept :
      (now start end : ℕ) (clients : List Client) (is_available : Bool) (t : Translator M)
      → is_due now t ≡ true
      → is_delivered clients (collapse t.buffered_updates) ≡ false
      → let u = run M c (flush_after now start end clients is_available) t in
        (u.buffer_flushed ≡ t.buffer_flushed)
        × (u.buffered_updates ≡ collapse t.buffered_updates)
        × (u.is_flushing ≡ false)
  unfolding run act
  flush_after-kept now start end clients is_available t h d =
      let ticked : Translator M = record t { timer_passed = false; flush_requested = true } in
      let taken = begin_flush-takes start ticked refl (ground arith) (ground arith) in
      let first : run M c (tick now) t ≡ ticked = tick-requests now t h in
      let (flushed, kept, guard) =
        finish_flush-failed end clients is_available (begun start ticked)
          (collapse t.buffered_updates) refl
          (deliver_updates-outcome clients (collapse t.buffered_updates) (begun start ticked)
            ∙ d) in
      rw (first, taken) (flushed, kept ∙ append-nil (collapse t.buffered_updates), guard)
