-- ===== src/Replay.antt =====
-- src/message_translator: tf_replay_manager.hpp and tf_replay_manager.cpp.
-- Times are nanoseconds. `std::sort` is a parameter, and so is `read`, the report that
-- `publishValidation` makes of a JSON text, if any. The replay time of a timer event, which is the
-- clock scaled by the rate in floating point, is an argument. The loops over the three buffers are
-- one function here, which gives the messages to publish.
pub mod Progress
pub mod Scans
mod Tests
use rises.Base.{
  ℕ, suc, ◌+◌, Bool, true, false, ◌&&◌, List, [], ◌∷◌, ◌++◌, Option, none, some, if◌then◌else◌,
  length, drop, ltb, leb, ◌==◌, Text, text_eq,
}
use rises.Base.Strings.{bytes, find, is_found}

-- A buffer and the index of the next message to replay.
pub record Stream (Message : Type 0) : Type 0 where
  pub buffered : List (ℕ × Message)
  pub replay_index : ℕ

pub record Transform (Content : Type 0) : Type 0 where
  pub frame_id : Text
  pub content : Content

pub record TfReplayManager (Content Scan Note Report : Type 0) : Type 0 where
  pub tf : Stream (List (Transform Content))
  pub laserscans : Stream Scan
  pub validations : Stream Note
  pub is_replaying : Bool
  pub has_laserscan_pub : Bool
  pub has_validation_pub : Bool
  pub tf_topic : List (Transform Content)
  pub tf_static_topic : List (Transform Content)
  pub laserscan_topic : List Scan
  pub validation_topic : List Report

module _ {Message : Type 0} where
  -- The loop over a buffer from the index on, with the messages published and the new index.
  pub play_from : ℕ → List (ℕ × Message) → ℕ → List Message × ℕ
  play_from now [] index = ([], index)
  play_from now ((timestamp, message) ∷ rest) index =
      let (later, last) = play_from now rest (suc index) in
      if ltb now timestamp then ([], index) else (message ∷ later, last)

  pub play : ℕ → Stream Message → List Message × Stream Message
  unfolding play_from
  play now s =
      let (messages, index) = play_from now (drop s.replay_index s.buffered) s.replay_index in
      (messages, record s { replay_index = index })

  abbrev pub push : ℕ → Message → Stream Message → Stream Message
  push timestamp message s = record s { buffered = s.buffered ++ (timestamp, message) ∷ [] }

  abbrev pub is_done : Stream Message → Bool
  is_done s = leb (length s.buffered) s.replay_index

module _ {Content Scan Note Report : Type 0} where
  pub buffer_laser_scan :
      ℕ → Scan → TfReplayManager Content Scan Note Report → TfReplayManager Content Scan Note Report
  buffer_laser_scan stamp scan r = record r { laserscans = push stamp scan r.laserscans }

  -- A message without transforms has the time of its arrival.
  pub buffer_message :
      ℕ
      → Option ℕ
      → List (Transform Content)
      → TfReplayManager Content Scan Note Report
      → TfReplayManager Content Scan Note Report
  buffer_message now none message r = record r { tf = push now message r.tf }
  buffer_message now (some stamp) message r = record r { tf = push stamp message r.tf }

  pub buffer_validation :
      ℕ → Note → TfReplayManager Content Scan Note Report → TfReplayManager Content Scan Note Report
  buffer_validation now note r = record r { validations = push now note r.validations }

  pub publish_transform :
      Transform Content
      → TfReplayManager Content Scan Note Report
      → TfReplayManager Content Scan Note Report
  publish_transform t r =
      if text_eq t.frame_id (bytes "map")
      then record r { tf_topic = r.tf_topic ++ t ∷ [] }
      else if is_found (find (bytes "base_link") t.frame_id)
      then record r { tf_static_topic = r.tf_static_topic ++ t ∷ [] }
      else record r { tf_topic = r.tf_topic ++ t ∷ [] }

  pub relay_message :
      List (Transform Content)
      → TfReplayManager Content Scan Note Report
      → TfReplayManager Content Scan Note Report
  unfolding publish_transform
  relay_message [] r = r
  relay_message (t ∷ rest) r = relay_message rest (publish_transform t r)

  pub relay_messages :
      List (List (Transform Content))
      → TfReplayManager Content Scan Note Report
      → TfReplayManager Content Scan Note Report
  unfolding relay_message
  relay_messages [] r = r
  relay_messages (message ∷ rest) r = relay_messages rest (relay_message message r)

  pub publish_laser_scan :
      Scan → TfReplayManager Content Scan Note Report → TfReplayManager Content Scan Note Report
  publish_laser_scan scan r =
      if r.has_laserscan_pub
      then record r { laserscan_topic = r.laserscan_topic ++ scan ∷ [] }
      else r

  pub publish_laser_scans :
      List Scan
      → TfReplayManager Content Scan Note Report
      → TfReplayManager Content Scan Note Report
  unfolding publish_laser_scan
  publish_laser_scans [] r = r
  publish_laser_scans (scan ∷ rest) r = publish_laser_scans rest (publish_laser_scan scan r)

  pub clear_buffer :
      TfReplayManager Content Scan Note Report → TfReplayManager Content Scan Note Report
  clear_buffer r = record r {
    tf = record { buffered = []; replay_index = 0 };
    laserscans = record { buffered = []; replay_index = 0 };
    validations = record { buffered = []; replay_index = 0 };
  }

module _ {Content Scan Note Report : Type 0} (read : Note → Option Report) where
  pub publish_validation :
      Note → TfReplayManager Content Scan Note Report → TfReplayManager Content Scan Note Report
  publish_validation note r =
      if r.has_validation_pub
      then elim (read note) [
        | none ↦ r
        | some report ↦ record r { validation_topic = r.validation_topic ++ report ∷ [] }
      ]
      else r

  pub publish_validations :
      List Note
      → TfReplayManager Content Scan Note Report
      → TfReplayManager Content Scan Note Report
  unfolding publish_validation
  publish_validations [] r = r
  publish_validations (note ∷ rest) r = publish_validations rest (publish_validation note r)

  -- `replayTimerCallback`, at a replay time.
  pub replay_timer_callback :
      ℕ → TfReplayManager Content Scan Note Report → TfReplayManager Content Scan Note Report
  unfolding play relay_messages publish_laser_scans publish_validations
  replay_timer_callback now r =
      let (transforms, tf) = play now r.tf in
      let (scans, laserscans) = play now r.laserscans in
      let (notes, validations) = play now r.validations in
      if is_done r.tf && (is_done r.laserscans && is_done r.validations)
      then record r {
        is_replaying = false;
        tf = record (r.tf) { buffered = [] };
        laserscans = record (r.laserscans) { buffered = [] };
        validations = record (r.validations) { buffered = [] };
      }
      else publish_validations notes (
          publish_laser_scans scans (
            relay_messages transforms
              (record r { tf = tf; laserscans = laserscans; validations = validations })))

  pub run :
      List ℕ → TfReplayManager Content Scan Note Report → TfReplayManager Content Scan Note Report
  run [] r = r
  run (now ∷ rest) r = run rest (replay_timer_callback now r)

module _ {Content Scan Note Report : Type 0}
    (sort : (Message : Type 0) → List (ℕ × Message) → List (ℕ × Message)) where
  pub start_replay :
      TfReplayManager Content Scan Note Report → TfReplayManager Content Scan Note Report
  start_replay r =
      if length r.tf.buffered + length r.laserscans.buffered + length r.validations.buffered == 0
      then r
      else record r {
        tf = record { buffered = sort _ r.tf.buffered; replay_index = 0 };
        laserscans = record { buffered = sort _ r.laserscans.buffered; replay_index = 0 };
        validations = record { buffered = sort _ r.validations.buffered; replay_index = 0 };
        is_replaying = true;
      }
