-- ===== src/Translator/Orders.antt =====
-- The orders that a run receives, and the steps that leave the orders alone.
use rises.Base.{ℕ, ◌≡◌, refl, inl, inr, Bool, List, [], ◌∷◌, arith, Option-cases, Text}
use rises.Base.Int.{ℤ}
use rises.Delivery.{Client}
use rises.Translator.State.{Messages, Config, Translator}
use rises.Translator.Handlers.{
  call_update_map_service_immediate, accept_updates, obstacle_updates_callback,
  check_all_geofences_ready, geofence_ready_callback, geofence_ready_timeout_callback,
}
use rises.Translator.Flush.{
  buffer_timer_start, request_flush, begin_flush, deliver_updates, flush_succeeded, flush_failed,
  finish_flush,
}
use rises.Translator.Run.{Action, order_message}

module _ (M : Messages) (c : Config) where
  open M use {Order}

  -- The orders received by a run.
  abbrev pub orders_in : List (Action M) → List (ℤ × Order)
  orders_in [] = []
  orders_in (order_message agv_id msg ∷ rest) = (agv_id, msg) ∷ orders_in rest
  orders_in (a ∷ rest) = orders_in rest

  -- The part of the state that the orders are in.
  abbrev pub orders_of : Translator M → List (ℤ × Order) × List (ℤ × Order) × Bool
  orders_of t = (t.order_topics, t.buffered_agv_orders, t.orders_flushed)

  pub obstacle_updates-quiet :
      (now : ℕ) (msg : Text) (t : Translator M)
      → orders_of (obstacle_updates_callback M c now msg t) ≡ orders_of t
  unfolding obstacle_updates_callback accept_updates call_update_map_service_immediate
  obstacle_updates-quiet now msg t = ground arith

  pub timer_start-quiet : (t : Translator M) → orders_of (buffer_timer_start M c t) ≡ orders_of t
  unfolding buffer_timer_start
  timer_start-quiet t = ground arith

  pub request_flush-quiet :
      (now : ℕ) (t : Translator M) → orders_of (request_flush M c now t) ≡ orders_of t
  unfolding request_flush
  request_flush-quiet now t = ground arith

  pub begin_flush-quiet :
      (now : ℕ) (t : Translator M) → orders_of (begin_flush M c now t) ≡ orders_of t
  unfolding begin_flush
  begin_flush-quiet now t = ground arith

  pub finish_flush-quiet :
      (now : ℕ) (clients : List Client) (is_available : Bool) (t : Translator M)
      → orders_of (finish_flush M c now clients is_available t) ≡ orders_of t
  unfolding finish_flush deliver_updates flush_succeeded flush_failed
  finish_flush-quiet now clients is_available t = elim (Option-cases t.flushing) [
    | inl e ↦ rw (finish_flush, e) refl
    | inr (updates, e) ↦ rw (finish_flush, e) (ground arith)
  ]

  pub ready-quiet :
      (agv_namespace : Text) (is_ready : Bool) (t : Translator M)
      → orders_of (geofence_ready_callback M c agv_namespace is_ready t) ≡ orders_of t
  unfolding geofence_ready_callback check_all_geofences_ready
  ready-quiet agv_namespace is_ready t = ground arith

  pub timeout-quiet :
      (t : Translator M) → orders_of (geofence_ready_timeout_callback M c t) ≡ orders_of t
  unfolding geofence_ready_timeout_callback
  timeout-quiet t = ground arith
