-- ===== src/Translator/Handlers.antt =====
-- src/message_translator: the callbacks of message_translator_node.cpp that take messages.
use rises.Base.{
  ℕ, Bool, true, not, ◌&&◌, ◌||◌, List, [], ◌∷◌, ◌++◌, Option, none, some, if◌then◌else◌, length,
  any, keep, Text, text_eq,
}
use rises.Base.Int.{ℤ, pos, leb_ℤ, ltb_ℤ}
use rises.Base.Strings.{bytes, find, is_found}
use rises.Spatial.Batch.{MapUpdate}
use rises.Replay.{
  TfReplayManager, Transform, buffer_validation, buffer_laser_scan, publish_laser_scan,
  buffer_message, relay_message,
}
use rises.Translator.State.{Messages, Config, Translator, is_nil}

module _ (M : Messages) (c : Config) where
  open M use {Obstacle, Order, Content, Scan, ValidationObstacle}

  unfoldable pub call_update_map_service_immediate :
      ℕ → List (MapUpdate Obstacle) → Translator M → Translator M
  call_update_map_service_immediate now updates t = record t {
    buffered_updates = t.buffered_updates ++ updates;
    last_update_wall_time = now;
    flush_requested = true;
  }

  abbrev pub will_buffer : Translator M → Bool
  will_buffer t = c.enable_buffering || (c.wait_for_geofence_ready && not t.all_geofences_ready)

  -- The updates of a message, once they are read.
  unfoldable pub accept_updates : ℕ → List (MapUpdate Obstacle) → Translator M → Translator M
  accept_updates now updates t =
      if is_nil updates
      then t
      else if will_buffer t
      then record t {
        buffered_updates = t.buffered_updates ++ updates;
        last_update_wall_time = now;
      }
      else if c.use_service_for_map_updates
      then call_update_map_service_immediate now updates t
      else record t { obstacle_topic = t.obstacle_topic ++ updates ∷ [] }

  unfoldable pub obstacle_updates_callback : ℕ → Text → Translator M → Translator M
  obstacle_updates_callback now msg t =
      if is_nil msg
      then t
      else if c.bulk_only && not (is_found (find (34 ∷ (bytes "pallets" ++ 34 ∷ [])) msg))
      then t
      else accept_updates now (M.parse_obstacle_updates msg) t

  -- There is a publisher for each of the `agv_count` vehicles.
  abbrev pub has_publisher : ℤ × Order → Bool
  has_publisher order = leb_ℤ (pos 0) order.0 && ltb_ℤ order.0 c.agv_count

  unfoldable pub flush_buffered_orders : Translator M → Translator M
  flush_buffered_orders t = if t.orders_flushed then t else record t {
    orders_flushed = true;
    order_topics = t.order_topics ++ keep has_publisher t.buffered_agv_orders;
    buffered_agv_orders = [];
  }

  unfoldable pub agv_order_relay_callback : ℤ → Order → Translator M → Translator M
  agv_order_relay_callback agv_id msg t =
      if t.orders_flushed
      then record t { order_topics = t.order_topics ++ (agv_id, msg) ∷ [] }
      else record t {
        buffered_agv_orders = t.buffered_agv_orders ++ (agv_id, msg) ∷ [];
        has_order_relay_timer = true;
      }

  unfoldable pub order_relay_timer_callback : Translator M → Translator M
  order_relay_timer_callback t = if t.orders_flushed then t else flush_buffered_orders t

  -- `checkAllGeofencesReady`
  unfoldable pub check_all_geofences_ready : Translator M → Translator M
  check_all_geofences_ready t =
      if t.all_geofences_ready
      then t
      else if leb_ℤ c.agv_count (pos (length t.ready_agvs))
      then record t { all_geofences_ready = true; flush_requested = true }
      else t

  unfoldable pub geofence_ready_callback : Text → Bool → Translator M → Translator M
  geofence_ready_callback agv_namespace is_ready t =
      if is_ready
      then (if any (text_eq agv_namespace) t.ready_agvs
          then t
          else check_all_geofences_ready (record t { ready_agvs = agv_namespace ∷ t.ready_agvs }))
      else t

  unfoldable pub geofence_ready_timeout_callback : Translator M → Translator M
  geofence_ready_timeout_callback t =
      if t.all_geofences_ready
      then t
      else record t { all_geofences_ready = true; flush_requested = true }

  -- Until the first successful flush.
  abbrev pub holds_back : Translator M → Bool
  holds_back t = c.enable_buffering && not t.buffer_flushed

  unfoldable pub laser_scan_callback : ℕ → Scan → Translator M → Translator M
  laser_scan_callback stamp scan t = record t {
    tf_replay_manager =
        if holds_back t
        then buffer_laser_scan stamp scan t.tf_replay_manager
        else publish_laser_scan scan t.tf_replay_manager;
  }

  -- The stamp is that of the first transform, if any.
  unfoldable pub tf_stamp_callback :
      ℕ → Option ℕ → List (Transform Content) → Translator M → Translator M
  tf_stamp_callback now stamp message t = if is_nil message then t else record t {
    tf_replay_manager =
        if holds_back t
        then buffer_message now stamp message t.tf_replay_manager
        else relay_message message t.tf_replay_manager;
  }

  -- A message that is empty or has no obstacle is skipped.
  abbrev pub relay_validation :
      Text
      → TfReplayManager Content Scan Text ValidationObstacle
      → TfReplayManager Content Scan Text ValidationObstacle
  relay_validation msg r = if is_nil msg then r else elim (M.parse_validation_obstacle msg) [
    | none ↦ r
    | some report ↦ record r { validation_topic = r.validation_topic ++ report ∷ [] }
  ]

  -- The publisher is the one that the replay manager has.
  unfoldable pub validation_callback : ℕ → Text → Translator M → Translator M
  validation_callback now msg t = record t {
    tf_replay_manager =
        if holds_back t
        then buffer_validation now msg t.tf_replay_manager
        else relay_validation msg t.tf_replay_manager;
  }
