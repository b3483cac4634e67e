-- ===== src/Translator/Flush.antt =====
-- src/message_translator: the buffer's timer and the flush thread of message_translator_node.cpp.
use rises.Base.{
  ℕ, suc, ◌-◌, Bool, true, false, not, ◌&&◌, ◌||◌, List, [], ◌∷◌, ◌++◌, none, some, if◌then◌else◌,
  leb,
}
use rises.Spatial.Batch.{MapUpdate}
use rises.Delivery.{Client, deliver}
use rises.Replay.{start_replay}
use rises.Translator.State.{Messages, Config, Translator, collapse, is_nil}
use rises.Translator.Handlers.{flush_buffered_orders}

module _ (M : Messages) (c : Config) where
  open M use {Obstacle}

  -- The callback's first tests.
  unfoldable pub buffer_timer_start : Translator M → Translator M
  buffer_timer_start t =
      if c.enable_buffering && not t.is_flushing then record t { timer_passed = true } else t

  unfoldable pub request_flush : ℕ → Translator M → Translator M
  request_flush now t =
      if not (is_nil t.buffered_updates) && leb c.buffer_timeout (now - t.last_update_wall_time)
      then (if not c.wait_for_geofence_ready || t.all_geofences_ready
          then record t { flush_requested = true }
          else t)
      else t

  -- Whether the signal is due, for a buffer that was empty or not.
  abbrev pub is_ready_due : Bool → Translator M → Bool
  is_ready_due was_empty t =
      was_empty && (t.buffer_flushed && (not t.init_ready_published && c.publish_init_ready))

  unfoldable pub publish_ready : Bool → Translator M → Translator M
  publish_ready was_empty t =
      if is_ready_due was_empty t
      then (let u = record t {
        init_ready_published = true;
        ready_topic = t.ready_topic ++ true ∷ [];
      } in
          if c.relay_orders then flush_buffered_orders M c u else u)
      else t

  -- The rest of the callback.
  unfoldable pub buffer_timer_rest : ℕ → Translator M → Translator M
  buffer_timer_rest now t =
      if t.timer_passed
      then publish_ready (is_nil t.buffered_updates)
          (request_flush now (record t { timer_passed = false }))
      else t

  -- The flush thread wakes up, and takes the updates.
  unfoldable pub begin_flush : ℕ → Translator M → Translator M
  begin_flush now t =
      if t.flush_requested && not t.is_flushing
      then (if is_nil t.buffered_updates then record t { flush_requested = false } else record t {
        flush_requested = false;
        is_flushing = true;
        flushing = some (collapse t.buffered_updates);
        buffered_updates = [];
        last_update_wall_time = now;
      })
      else t

  -- `deliver` of the strategy: whether it succeeded, and what was sent.
  unfoldable pub deliver_updates :
      List Client → List (MapUpdate Obstacle) → Translator M → Bool × Translator M
  deliver_updates clients updates t =
      if c.use_service_for_map_updates
      then (let (all_success, sent) = deliver clients c.service_chunk_size updates t.requests in
          (all_success, record t { requests = sent }))
      else (true, record t { obstacle_topic = t.obstacle_topic ++ updates ∷ [] })

  unfoldable pub flush_succeeded : Translator M → Translator M
  flush_succeeded t =
      let u = record t { buffer_flushed = true } in
      if not t.buffer_flushed && c.enable_replay
      then record u { tf_replay_manager = start_replay M.sort t.tf_replay_manager }
      else u

  unfoldable pub flush_failed : ℕ → List (MapUpdate Obstacle) → Translator M → Translator M
  flush_failed now updates t = record t {
    buffered_updates = updates ++ t.buffered_updates;
    last_update_wall_time = now;
  }

  -- The delivery and what follows. The completion service is called where it is available; its
  -- answer is only logged.
  unfoldable pub finish_flush : ℕ → List Client → Bool → Translator M → Translator M
  finish_flush now clients is_available t = elim t.flushing [
    | none ↦ t
    | some updates ↦
        let (all_success, sent) = deliver_updates clients updates t in
        let u = if all_success then flush_succeeded sent else flush_failed now updates sent in
        record u {
          completion_requests =
              if c.call_completion_service && is_available
              then suc u.completion_requests
              else u.completion_requests;
          is_flushing = false;
          flushing = none;
        }
  ]
