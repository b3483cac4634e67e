-- ===== src/Translator/State.antt =====
-- src/message_translator: the state and the parameters of message_translator_node.hpp, and the running
-- map of `flushBuffer`.
use rises.Base.{ℕ, Bool, true, false, List, [], ◌∷◌, Option, if◌then◌else◌, ◌==◌, map, Text}
use rises.Base.Int.{ℤ}
use rises.Base.Dict.{int_keys, update, erase}
use rises.Spatial.Batch.{MapUpdate, op_insert}
use rises.Delivery.{Requests}
use rises.Replay.{TfReplayManager}

pub record Messages : Type 1 where
  pub Obstacle : Type 0
  pub Order : Type 0
  pub Content : Type 0
  pub Scan : Type 0
  pub ValidationObstacle : Type 0
  pub parse_obstacle_updates : Text → List (MapUpdate Obstacle)
  pub parse_validation_obstacle : Text → Option ValidationObstacle
  pub sort : (Message : Type 0) → List (ℕ × Message) → List (ℕ × Message)

pub record Config : Type 0 where
  pub enable_buffering : Bool
  pub buffer_timeout : ℕ
  pub bulk_only : Bool
  pub use_service_for_map_updates : Bool
  pub enable_replay : Bool
  pub agv_count : ℤ
  pub publish_init_ready : Bool
  pub call_completion_service : Bool
  pub wait_for_geofence_ready : Bool
  pub relay_orders : Bool
  pub service_chunk_size : ℤ

-- `timer_passed`: the timer's callback is past its first test. `flushing`: the updates that the flush
-- thread delivers. The last fields are what was sent.
pub record Translator (M : Messages) : Type 0 where
  pub buffered_updates : List (MapUpdate M.Obstacle)
  pub last_update_wall_time : ℕ
  pub buffer_flushed : Bool
  pub is_flushing : Bool
  pub init_ready_published : Bool
  pub ready_agvs : List Text
  pub all_geofences_ready : Bool
  pub flush_requested : Bool
  pub buffered_agv_orders : List (ℤ × M.Order)
  pub orders_flushed : Bool
  pub has_order_relay_timer : Bool
  pub tf_replay_manager : TfReplayManager M.Content M.Scan Text M.ValidationObstacle
  pub timer_passed : Bool
  pub flushing : Option (List (MapUpdate M.Obstacle))
  pub requests : Requests (MapUpdate M.Obstacle)
  pub obstacle_topic : List (List (MapUpdate M.Obstacle))
  pub ready_topic : List Bool
  pub order_topics : List (ℤ × M.Order)
  pub completion_requests : ℕ

module _ {Obstacle : Type 0} where
  -- The running map of `flushBuffer`.
  unfoldable pub collapse_map :
      List (MapUpdate Obstacle) → List (ℤ × MapUpdate Obstacle) → List (ℤ × MapUpdate Obstacle)
  collapse_map [] m = m
  collapse_map (u ∷ rest) m =
      collapse_map rest
        (if u.operation == op_insert then update u.id u (λ _. u) m else erase u.id m)

  -- The surviving entries.
  unfoldable pub collapse : List (MapUpdate Obstacle) → List (MapUpdate Obstacle)
  collapse updates = map (λ entry. entry.1) (collapse_map updates [])

abbrev pub is_nil {ℓ} : {A : Type ℓ} → List A → Bool
is_nil [] = true
is_nil (x ∷ xs) = false
