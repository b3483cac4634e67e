-- ===== src/Translator/Ready.antt =====
-- The initialisation signal: at most once, and only after a delivery that succeeded.
use rises.Base.{
  ℕ, ◌≡◌, refl, inl, inr, Bool, true, false, not, ◌&&◌, ◌||◌, ◌⊎◌, List, [], ◌∷◌, ◌++◌, none, some,
  if◌then◌else◌, arith, Option-cases, Text,
}
use rises.Delivery.{Client}
use rises.Replay.{TfReplayManager}
use rises.Translator.State.{Messages, Config, Translator, is_nil}
use rises.Translator.Handlers.{
  call_update_map_service_immediate, accept_updates, obstacle_updates_callback,
  flush_buffered_orders, check_all_geofences_ready, geofence_ready_callback,
  geofence_ready_timeout_callback, agv_order_relay_callback, order_relay_timer_callback,
  laser_scan_callback, tf_stamp_callback, validation_callback,
}
use rises.Translator.Flush.{
  buffer_timer_start, request_flush, is_ready_due, publish_ready, buffer_timer_rest, begin_flush,
  deliver_updates, flush_succeeded, flush_failed, finish_flush,
}
use rises.Translator.Run.{
  Action, map_message, timer_start, timer_rest, flush_start, flush_end, ready_message,
  ready_timeout, order_message, order_timer, scan_message, tf_message, validation_message, act, run,
  new_node,
}

module _ (M : Messages) (c : Config) where
  -- Whether a flush is under way.
  abbrev pub is_delivering : Translator M → Bool
  is_delivering t = elim t.flushing [ none ↦ false | some updates ↦ true ]

  pub record IsOnce (t : Translator M) : Type 0 where
    pub once : t.ready_topic ≡ (if t.init_ready_published then true ∷ [] else [])
    pub after_flush : (t.init_ready_published && not t.buffer_flushed) ≡ false
    pub guarded : t.is_flushing ≡ is_delivering t

  -- What the invariant is about.
  abbrev pub signal_of : Translator M → List Bool × Bool × Bool × Bool × Bool
  signal_of t =
      (t.ready_topic, t.init_ready_published, t.buffer_flushed, t.is_flushing, is_delivering t)

  quiet-IsOnce : (t u : Translator M) → signal_of u ≡ signal_of t → IsOnce t → IsOnce u
  quiet-IsOnce t u e inv = record {
    once = ground (arith, inv.once);
    after_flush = ground (arith, inv.after_flush);
    guarded = ground (arith, inv.guarded);
  }

  if_IsOnce :
      (b : Bool) (u v : Translator M)
      → (b ≡ true → IsOnce u)
      → (b ≡ false → IsOnce v)
      → IsOnce (if b then u else v)
  if_IsOnce true u v f g = f refl
  if_IsOnce false u v f g = g refl

  flush_orders-quiet : (t : Translator M) → signal_of (flush_buffered_orders M c t) ≡ signal_of t
  unfolding flush_buffered_orders
  flush_orders-quiet t = ground arith

  publish_ready-IsOnce :
      (was_empty : Bool) (t : Translator M) → IsOnce t → IsOnce (publish_ready M c was_empty t)
  unfolding publish_ready
  publish_ready-IsOnce was_empty t inv =
      let u : Translator M = record t {
        init_ready_published = true;
        ready_topic = t.ready_topic ++ true ∷ [];
      } in
      if_IsOnce (is_ready_due M c was_empty t) _ _
        (λ e.
          let next : IsOnce u = record {
            once = ground (arith, inv.once);
            after_flush = ground arith;
            guarded = inv.guarded;
          } in
          if_IsOnce c.relay_orders _ _ (λ r. quiet-IsOnce u _ (flush_orders-quiet u) next)
            (λ r. next))
        (λ e. inv)

  timer_rest-IsOnce : (now : ℕ) (t : Translator M) → IsOnce t → IsOnce (buffer_timer_rest M c now t)
  unfolding buffer_timer_rest request_flush
  timer_rest-IsOnce now t inv =
      let u = request_flush M c now (record t { timer_passed = false }) in
      if_IsOnce t.timer_passed _ _
        (λ e.
          publish_ready-IsOnce (is_nil t.buffered_updates) u (quiet-IsOnce t u (ground arith) inv))
        (λ e. inv)

  begin_flush-IsOnce : (now : ℕ) (t : Translator M) → IsOnce t → IsOnce (begin_flush M c now t)
  unfolding begin_flush
  begin_flush-IsOnce now t inv = record {
    once = ground (arith, inv.once);
    after_flush = ground (arith, inv.after_flush);
    guarded = ground (arith, inv.guarded);
  }

  -- The signal's fields over the end of a flush.
  finish_flush-fields :
      (now : ℕ) (clients : List Client) (is_available : Bool) (t : Translator M)
      → let u = finish_flush M c now clients is_available t in
        (u.ready_topic ≡ t.ready_topic)
        × (u.init_ready_published ≡ t.init_ready_published)
        × ((t.buffer_flushed && not u.buffer_flushed) ≡ false)
  unfolding finish_flush deliver_updates flush_succeeded flush_failed
  finish_flush-fields now clients is_available t = elim (Option-cases t.flushing) [
    | inl e ↦ rw (finish_flush, e) (refl, refl, ground arith)
    | inr (updates, e) ↦ rw (finish_flush, e) (ground arith, ground arith, ground arith)
  ]

  finish_flush-idle :
      (now : ℕ) (clients : List Client) (is_available : Bool) (t : Translator M)
      → t.flushing ≡ none
      → finish_flush M c now clients is_available t ≡ t
  unfolding finish_flush
  finish_flush-idle now clients is_available t e = simp (finish_flush, e)

  finish_flush-guarded :
      (now : ℕ) (clients : List Client) (is_available : Bool) (t : Translator M)
      → t.is_flushing ≡ is_delivering t
      → let u = finish_flush M c now clients is_available t in u.is_flushing ≡ is_delivering u
  unfolding finish_flush
  finish_flush-guarded now clients is_available t h = elim (Option-cases t.flushing) [
    | inl e ↦ rw (finish_flush-idle now clients is_available t e) h
    | inr (updates, e) ↦ rw (finish_flush, e) refl
  ]

  finish_flush-IsOnce :
      (now : ℕ) (clients : List Client) (is_available : Bool) (t : Translator M)
      → IsOnce t
      → IsOnce (finish_flush M c now clients is_available t)
  finish_flush-IsOnce now clients is_available t inv =
      let (topic, init, flushed) = finish_flush-fields now clients is_available t in
      record {
        once = ground (arith, inv.once);
        after_flush = ground (arith, inv.after_flush);
        guarded = finish_flush-guarded now clients is_available t inv.guarded;
      }

  act-IsOnce : (a : Action M) (t : Translator M) → IsOnce t → IsOnce (act M c a t)
  unfolding act obstacle_updates_callback accept_updates call_update_map_service_immediate
      buffer_timer_start check_all_geofences_ready geofence_ready_callback
      geofence_ready_timeout_callback agv_order_relay_callback order_relay_timer_callback
      laser_scan_callback tf_stamp_callback validation_callback
  act-IsOnce (map_message now msg) t inv = quiet-IsOnce t _ (ground arith) inv
  act-IsOnce timer_start t inv = quiet-IsOnce t _ (ground arith) inv
  act-IsOnce (timer_rest now) t inv = timer_rest-IsOnce now t inv
  act-IsOnce (flush_start now) t inv = begin_flush-IsOnce now t inv
  act-IsOnce (flush_end now clients is_available) t inv =
      finish_flush-IsOnce now clients is_available t inv
  act-IsOnce (ready_message agv_namespace is_ready) t inv = quiet-IsOnce t _ (ground arith) inv
  act-IsOnce ready_timeout t inv = quiet-IsOnce t _ (ground arith) inv
  act-IsOnce (order_message agv_id msg) t inv = quiet-IsOnce t _ (ground arith) inv
  act-IsOnce order_timer t inv =
      if_IsOnce t.orders_flushed _ _ (λ e. inv) (λ e. quiet-IsOnce t _ (flush_orders-quiet t) inv)
  act-IsOnce (scan_message stamp scan) t inv = quiet-IsOnce t _ refl inv
  act-IsOnce (tf_message now stamp message) t inv = quiet-IsOnce t _ (ground arith) inv
  act-IsOnce (validation_message now msg) t inv = quiet-IsOnce t _ refl inv

  -- In any interleaving, the signal has been published as often as init_ready_published says, once or not
  -- at all, only with buffer_flushed set, and is_flushing says whether a flush is under way.
  pub run-IsOnce :
      (actions : List (Action M)) (t : Translator M) → IsOnce t → IsOnce (run M c actions t)
  unfolding run
  run-IsOnce [] t inv = inv
  run-IsOnce (a ∷ rest) t inv = run-IsOnce rest (act M c a t) (act-IsOnce a t inv)

  pub new_node-IsOnce :
      (manager : TfReplayManager M.Content M.Scan Text M.ValidationObstacle)
      → IsOnce (new_node M c manager)
  unfolding new_node
  new_node-IsOnce manager = record { once = refl; after_flush = refl; guarded = refl }

  -- Whether an action ends a delivery that succeeds.
  abbrev pub delivers : Action M → Translator M → Bool
  delivers (flush_end now clients is_available) t = elim t.flushing [
    | none ↦ false
    | some updates ↦ (deliver_updates M c clients updates t).0
  ]
  delivers _ t = false

  -- Whether some delivery of a run succeeds.
  abbrev pub has_delivered : List (Action M) → Translator M → Bool
  has_delivered [] t = false
  has_delivered (a ∷ rest) t = delivers a t || has_delivered rest (act M c a t)

  finish_flush-flushed :
      (now : ℕ) (clients : List Client) (is_available : Bool) (t : Translator M)
      → (finish_flush M c now clients is_available t).buffer_flushed
        ≡ (t.buffer_flushed || delivers (flush_end now clients is_available) t)
  unfolding finish_flush deliver_updates flush_succeeded flush_failed
  finish_flush-flushed now clients is_available t = elim (Option-cases t.flushing) [
    | inl e ↦ rw (finish_flush, e) (ground arith)
    | inr (updates, e) ↦ rw (finish_flush, e) (ground arith)
  ]

  act-flushed :
      (a : Action M) (t : Translator M)
      → (act M c a t).buffer_flushed ≡ (t.buffer_flushed || delivers a t)
  unfolding act obstacle_updates_callback accept_updates call_update_map_service_immediate
      buffer_timer_start buffer_timer_rest request_flush publish_ready begin_flush
      check_all_geofences_ready geofence_ready_callback flush_buffered_orders
      geofence_ready_timeout_callback agv_order_relay_callback order_relay_timer_callback
      laser_scan_callback tf_stamp_callback validation_callback
  act-flushed (map_message now msg) t = ground arith
  act-flushed timer_start t = ground arith
  act-flushed (timer_rest now) t = ground arith
  act-flushed (flush_start now) t = ground arith
  act-flushed (flush_end now clients is_available) t =
      finish_flush-flushed now clients is_available t
  act-flushed (ready_message agv_namespace is_ready) t = ground arith
  act-flushed ready_timeout t = ground arith
  act-flushed (order_message agv_id msg) t = ground arith
  act-flushed order_timer t = ground arith
  act-flushed (scan_message stamp scan) t = ground arith
  act-flushed (tf_message now stamp message) t = ground arith
  act-flushed (validation_message now msg) t = ground arith

  run-flushed :
      (actions : List (Action M)) (t : Translator M)
      → (run M c actions t).buffer_flushed ≡ (t.buffer_flushed || has_delivered actions t)
  unfolding run
  run-flushed [] t = ground arith
  run-flushed (a ∷ rest) t = ground (arith, run-flushed rest (act M c a t), act-flushed a t)

  -- In any interleaving of the callbacks and the flush thread of a new node, the initialisation signal
  -- is published at most once, and not at all before a delivery of a flush has succeeded.
  pub run-signal :
      (manager : TfReplayManager M.Content M.Scan Text M.ValidationObstacle)
      → (actions : List (Action M))
      → let topic = (run M c actions (new_node M c manager)).ready_topic in
        (topic ≡ []) ⊎ ((topic ≡ true ∷ []) × (has_delivered actions (new_node M c manager) ≡ true))
  unfolding new_node
  run-signal manager actions =
      let t = new_node M c manager in
      let inv = run-IsOnce actions t (new_node-IsOnce manager) in
      ground (arith, inv.once, inv.after_flush, run-flushed actions t)
