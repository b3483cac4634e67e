-- ===== src/Translator/Run.antt =====
-- Sequences of the callbacks and of the flush thread's steps.
use rises.Base.{ℕ, Bool, false, not, List, [], ◌∷◌, Option, none, Text}
use rises.Base.Int.{ℤ}
use rises.Delivery.{Client}
use rises.Replay.{Transform, TfReplayManager}
use rises.Translator.State.{Messages, Config, Translator}
use rises.Translator.Handlers.{
  obstacle_updates_callback, agv_order_relay_callback, order_relay_timer_callback,
  geofence_ready_callback, geofence_ready_timeout_callback, laser_scan_callback, tf_stamp_callback,
  validation_callback,
}
use rises.Translator.Flush.{buffer_timer_start, buffer_timer_rest, begin_flush, finish_flush}

pub data Action (M : Messages) : Type 0 where
  map_message : ℕ → Text → Action M
  timer_start : Action M
  timer_rest : ℕ → Action M
  flush_start : ℕ → Action M
  flush_end : ℕ → List Client → Bool → Action M
  ready_message : Text → Bool → Action M
  ready_timeout : Action M
  order_message : ℤ → M.Order → Action M
  order_timer : Action M
  scan_message : ℕ → M.Scan → Action M
  tf_message : ℕ → Option ℕ → List (Transform M.Content) → Action M
  validation_message : ℕ → Text → Action M

module _ (M : Messages) (c : Config) where
  unfoldable pub act : Action M → Translator M → Translator M
  act (map_message now msg) = obstacle_updates_callback M c now msg
  act timer_start = buffer_timer_start M c
  act (timer_rest now) = buffer_timer_rest M c now
  act (flush_start now) = begin_flush M c now
  act (flush_end now clients is_available) = finish_flush M c now clients is_available
  act (ready_message agv_namespace is_ready) = geofence_ready_callback M c agv_namespace is_ready
  act ready_timeout = geofence_ready_timeout_callback M c
  act (order_message agv_id msg) = agv_order_relay_callback M c agv_id msg
  act order_timer = order_relay_timer_callback M c
  act (scan_message stamp scan) = laser_scan_callback M c stamp scan
  act (tf_message now stamp message) = tf_stamp_callback M c now stamp message
  act (validation_message now msg) = validation_callback M c now msg

  unfoldable pub run : List (Action M) → Translator M → Translator M
  run [] t = t
  run (a ∷ rest) t = run rest (act a t)

  -- The node after its construction, with the replay manager given.
  unfoldable pub new_node :
      TfReplayManager M.Content M.Scan Text M.ValidationObstacle → Translator M
  new_node manager = record {
    buffered_updates = [];
    last_update_wall_time = 0;
    buffer_flushed = false;
    is_flushing = false;
    init_ready_published = false;
    ready_agvs = [];
    all_geofences_ready = not c.wait_for_geofence_ready;
    flush_requested = false;
    buffered_agv_orders = [];
    orders_flushed = false;
    has_order_relay_timer = false;
    tf_replay_manager = manager;
    timer_passed = false;
    flushing = none;
    requests = [];
    obstacle_topic = [];
    ready_topic = [];
    order_topics = [];
    completion_requests = 0;
  }
