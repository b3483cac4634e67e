-- ===== src/Translator/Relayed.antt =====
-- The orders of the vehicles: each is published once, in order.
use rises.Base.{
  ℕ, ◌≡◌, refl, sym, ◌∙◌, ap, inl, inr, Bool, true, false, List, [], ◌∷◌, ◌++◌, if◌then◌else◌, keep,
  keep-append, All, append-nil, append_assoc, arith, Bool-cases, Text,
}
use rises.Base.Int.{ℤ}
use rises.Replay.{TfReplayManager}
use rises.Translator.State.{Messages, Config, Translator, is_nil}
use rises.Translator.Handlers.{
  has_publisher, flush_buffered_orders, agv_order_relay_callback, order_relay_timer_callback,
  laser_scan_callback, tf_stamp_callback, validation_callback,
}
use rises.Translator.Flush.{request_flush, is_ready_due, publish_ready, buffer_timer_rest}
use rises.Translator.Run.{
  Action, map_message, timer_start, timer_rest, flush_start, flush_end, ready_message,
  ready_timeout, order_message, order_timer, scan_message, tf_message, validation_message, act, run,
  new_node,
}
use rises.Translator.Orders.{
  orders_in, orders_of, obstacle_updates-quiet, timer_start-quiet, request_flush-quiet,
  begin_flush-quiet, finish_flush-quiet, ready-quiet, timeout-quiet,
}

keep-snoc {ℓ} :
    {A : Type ℓ} (p : A → Bool) (xs : List A) (y : A)
    → keep p xs ≡ xs
    → p y ≡ true
    → keep p (xs ++ y ∷ []) ≡ xs ++ y ∷ []
keep-snoc p xs y e h = keep-append p xs (y ∷ []) ∙ ground arith

All-split {ℓ κ} :
    {A : Type ℓ} (P : A → Type κ) (xs ys : List A) → All P (xs ++ ys) → All P xs × All P ys
All-split P [] ys h = (tt, h)
All-split P (x ∷ xs) ys h = let (l, r) = All-split P xs ys h.1 in ((h.0, l), r)

module _ (M : Messages) (c : Config) where
  open M use {Order}

  -- Orders wait only until the flush, and each for a vehicle that has a publisher.
  pub record IsWaiting (t : Translator M) : Type 0 where
    pub flushed : t.orders_flushed ≡ true → t.buffered_agv_orders ≡ []
    pub valid : keep (has_publisher M c) t.buffered_agv_orders ≡ t.buffered_agv_orders

  -- A step from one state to another that takes in some orders.
  pub record Takes (orders : List (ℤ × Order)) (t u : Translator M) : Type 0 where
    pub kept :
        u.order_topics ++ u.buffered_agv_orders
        ≡ (t.order_topics ++ t.buffered_agv_orders) ++ orders
    pub waiting : IsWaiting u

  quiet-Takes :
      (t u : Translator M) → orders_of M c u ≡ orders_of M c t → IsWaiting t → Takes [] t u
  quiet-Takes t u e w = record {
    kept = ground (arith, append-nil (t.order_topics ++ t.buffered_agv_orders));
    waiting = record { flushed = ground (arith, w.flushed); valid = ground (arith, w.valid) };
  }

  if_Takes :
      (orders : List (ℤ × Order)) (t : Translator M) (b : Bool) (u v : Translator M)
      → (b ≡ true → Takes orders t u)
      → (b ≡ false → Takes orders t v)
      → Takes orders t (if b then u else v)
  if_Takes orders t true u v f g = f refl
  if_Takes orders t false u v f g = g refl

  flush_orders-Takes : (t : Translator M) → IsWaiting t → Takes [] t (flush_buffered_orders M c t)
  unfolding flush_buffered_orders
  flush_orders-Takes t w =
      if_Takes [] t t.orders_flushed _ _ (λ e. quiet-Takes t t refl w)
        (λ e. record {
          kept = ground (
            arith,
            w.valid,
            append-nil (t.order_topics ++ t.buffered_agv_orders),
            append-nil (t.order_topics ++ keep (has_publisher M c) t.buffered_agv_orders),
          );
          waiting = record { flushed = λ h. refl; valid = refl };
        })

  publish_ready-Takes :
      (was_empty : Bool) (t : Translator M)
      → IsWaiting t
      → Takes [] t (publish_ready M c was_empty t)
  unfolding publish_ready
  publish_ready-Takes was_empty t w =
      let u : Translator M = record t {
        init_ready_published = true;
        ready_topic = t.ready_topic ++ true ∷ [];
      } in
      let next = flush_orders-Takes u (record { flushed = w.flushed; valid = w.valid }) in
      if_Takes [] t (is_ready_due M c was_empty t) _ _
        (λ e.
          if_Takes [] t c.relay_orders _ _
            (λ r. record { kept = next.kept; waiting = next.waiting })
            (λ r. quiet-Takes t u refl w))
        (λ e. quiet-Takes t t refl w)

  timer_rest-Takes :
      (now : ℕ) (t : Translator M) → IsWaiting t → Takes [] t (buffer_timer_rest M c now t)
  unfolding buffer_timer_rest
  timer_rest-Takes now t w =
      let r : Translator M = record t { timer_passed = false } in
      let u = request_flush M c now r in
      let first = quiet-Takes t u (request_flush-quiet M c now r) w in
      let second = publish_ready-Takes (is_nil t.buffered_updates) u first.waiting in
      if_Takes [] t t.timer_passed _ _
        (λ e. record {
          kept = ground (
            arith,
            second.kept,
            first.kept,
            append-nil (u.order_topics ++ u.buffered_agv_orders),
            append-nil (t.order_topics ++ t.buffered_agv_orders),
          );
          waiting = second.waiting;
        })
        (λ e. quiet-Takes t t refl w)

  order_timer-Takes :
      (t : Translator M) → IsWaiting t → Takes [] t (order_relay_timer_callback M c t)
  unfolding order_relay_timer_callback
  order_timer-Takes t w =
      if_Takes [] t t.orders_flushed _ _ (λ e. quiet-Takes t t refl w) (λ e. flush_orders-Takes t w)

  order_message-Takes :
      (agv_id : ℤ) (msg : Order) (t : Translator M)
      → has_publisher M c (agv_id, msg) ≡ true
      → IsWaiting t
      → Takes ((agv_id, msg) ∷ []) t (agv_order_relay_callback M c agv_id msg t)
  unfolding agv_order_relay_callback
  order_message-Takes agv_id msg t p w =
      if_Takes ((agv_id, msg) ∷ []) t t.orders_flushed _ _
        (λ e. record {
          kept = ground (
            arith,
            w.flushed e,
            append-nil t.order_topics,
            append-nil (t.order_topics ++ (agv_id, msg) ∷ []),
          );
          waiting = record { flushed = w.flushed; valid = w.valid };
        })
        (λ e. record {
          kept = sym (append_assoc t.order_topics t.buffered_agv_orders ((agv_id, msg) ∷ []));
          waiting = record {
            flushed = λ h. ground arith;
            valid = keep-snoc (has_publisher M c) t.buffered_agv_orders (agv_id, msg) w.valid p;
          };
        })

  act-Takes :
      (a : Action M) (t : Translator M)
      → All (λ order. has_publisher M c order ≡ true) (orders_in M c (a ∷ []))
      → IsWaiting t
      → Takes (orders_in M c (a ∷ [])) t (act M c a t)
  unfolding act laser_scan_callback tf_stamp_callback validation_callback
  act-Takes (map_message now msg) t h w = quiet-Takes t _ (obstacle_updates-quiet M c now msg t) w
  act-Takes timer_start t h w = quiet-Takes t _ (timer_start-quiet M c t) w
  act-Takes (timer_rest now) t h w = timer_rest-Takes now t w
  act-Takes (flush_start now) t h w = quiet-Takes t _ (begin_flush-quiet M c now t) w
  act-Takes (flush_end now clients is_available) t h w =
      quiet-Takes t _ (finish_flush-quiet M c now clients is_available t) w
  act-Takes (ready_message agv_namespace is_ready) t h w =
      quiet-Takes t _ (ready-quiet M c agv_namespace is_ready t) w
  act-Takes ready_timeout t h w = quiet-Takes t _ (timeout-quiet M c t) w
  act-Takes (order_message agv_id msg) t h w = order_message-Takes agv_id msg t h.0 w
  act-Takes order_timer t h w = order_timer-Takes t w
  act-Takes (scan_message stamp scan) t h w = quiet-Takes t _ refl w
  act-Takes (tf_message now stamp message) t h w = quiet-Takes t _ (ground arith) w
  act-Takes (validation_message now msg) t h w = quiet-Takes t _ refl w

  orders_in-cons :
      (a : Action M) (rest : List (Action M))
      → orders_in M c (a ∷ rest) ≡ orders_in M c (a ∷ []) ++ orders_in M c rest
  orders_in-cons (map_message now msg) rest = refl
  orders_in-cons timer_start rest = refl
  orders_in-cons (timer_rest now) rest = refl
  orders_in-cons (flush_start now) rest = refl
  orders_in-cons (flush_end now clients is_available) rest = refl
  orders_in-cons (ready_message agv_namespace is_ready) rest = refl
  orders_in-cons ready_timeout rest = refl
  orders_in-cons (order_message agv_id msg) rest = refl
  orders_in-cons order_timer rest = refl
  orders_in-cons (scan_message stamp scan) rest = refl
  orders_in-cons (tf_message now stamp message) rest = refl
  orders_in-cons (validation_message now msg) rest = refl

  run-Takes :
      (actions : List (Action M)) (t : Translator M)
      → All (λ order. has_publisher M c order ≡ true) (orders_in M c actions)
      → IsWaiting t
      → Takes (orders_in M c actions) t (run M c actions t)
  unfolding run
  run-Takes [] t h w = quiet-Takes t t refl w
  run-Takes (a ∷ rest) t h w =
      let both =
        All-split (λ order. has_publisher M c order ≡ true) (orders_in M c (a ∷ []))
          (orders_in M c rest) (rw⁻¹ (orders_in-cons a rest) h) in
      let first = act-Takes a t both.0 w in
      let next = act M c a t in
      let second = run-Takes rest next both.1 first.waiting in
      record {
        kept =
            second.kept
            ∙ ap (λ l. l ++ orders_in M c rest) first.kept
            ∙ append_assoc (t.order_topics ++ t.buffered_agv_orders) (orders_in M c (a ∷ []))
                (orders_in M c rest)
            ∙ ap (λ l. (t.order_topics ++ t.buffered_agv_orders) ++ l)
                (sym (orders_in-cons a rest));
        waiting = second.waiting;
      }

  -- In any run of a new node whose orders are for vehicles with a publisher, the orders published are
  -- the orders received, in order, up to those that wait; none waits once the orders were flushed.
  pub run-orders :
      (actions : List (Action M))
      (manager : TfReplayManager M.Content M.Scan Text M.ValidationObstacle)
      → All (λ order. has_publisher M c order ≡ true) (orders_in M c actions)
      → let t = run M c actions (new_node M c manager) in
        t.order_topics ++ (if t.orders_flushed then [] else t.buffered_agv_orders)
        ≡ orders_in M c actions
  unfolding new_node
  run-orders actions manager h =
      let t = run M c actions (new_node M c manager) in
      let after =
        run-Takes actions (new_node M c manager) h (record { flushed = λ e. refl; valid = refl }) in
      elim (Bool-cases t.orders_flushed) [
        | inl e ↦ ground (arith, after.kept, after.waiting.flushed e)
        | inr e ↦ ground (arith, after.kept)
      ]
