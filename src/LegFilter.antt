-- ===== src/LegFilter.antt =====
-- src/rises_leg_filter: leg_filter_node.cpp. The tracks of unmatched obstacles, and the candidates for
-- human legs among them.
-- `double` is a parameter with its operations. A track is observed fewer than 2 ^ 31 times, and
-- `min_observations` is not negative. The clock's and the messages' times are arguments. The
-- published ids and frames are the list of the candidates that they are written from.
pub mod Motion
mod Tests
use rises.Base.{
  ℕ, suc, ◌+◌, Bool, true, false, not, ◌&&◌, List, [], ◌∷◌, ◌++◌, Option, none, some, if◌then◌else◌,
  ltb, ◌==◌, any, keep, Text,
}
use rises.Base.Dict.{update, nat_eq, text_keys}

pub record Doubles : Type 1 where
  pub Double : Type 0
  pub zero : Double
  pub tenth : Double
  pub two : Double
  pub add : Double → Double → Double
  pub sub : Double → Double → Double
  pub mul : Double → Double → Double
  pub div : Double → Double → Double
  pub sqrt : Double → Double
  pub less : Double → Double → Bool
  pub leq : Double → Double → Bool

-- A time span, a sum and a flag beside the positions, as in the struct.
pub record LegTrack (Double : Type 0) : Type 0 where
  pub last_x : Double
  pub last_y : Double
  pub last_seen_sec : Double
  pub first_seen_sec : Double
  pub displacement_sum : Double
  pub time_span : Double
  pub observation_count : ℕ
  pub prev_x : Double
  pub prev_y : Double
  pub has_prev : Bool
  pub is_candidate : Bool
  pub confirmed_by_camera : Bool

pub record ConfirmedHuman (Double : Type 0) : Type 0 where
  pub x : Double
  pub y : Double
  pub timestamp_sec : Double

pub record Obstacle (Double : Type 0) : Type 0 where
  pub id : ℕ
  pub width : Double
  pub x : Double
  pub y : Double

pub record Config (Double : Type 0) : Type 0 where
  pub min_width : Double
  pub max_width : Double
  pub min_velocity : Double
  pub stationary_timeout : Double
  pub eviction_timeout : Double
  pub min_observations : ℕ
  pub camera_match_radius : Double
  pub camera_stale_sec : Double
  pub enable_camera_fusion : Bool

pub record Candidate (Double : Type 0) : Type 0 where
  pub id : ℕ
  pub last_x : Double
  pub last_y : Double
  pub confirmed_by_camera : Bool

pub record LegFilterNode (Double : Type 0) : Type 0 where
  pub tracks : List (ℕ × LegTrack Double)
  pub confirmed_humans : List (Text × ConfirmedHuman Double)
  pub bodies_tracked : List (List (Candidate Double))

-- The parts between commas.
abbrev pub split_commas : Text → Text → List Text
split_commas part [] = part ∷ []
split_commas part (c ∷ s) =
    if c == 44 then part ∷ split_commas [] s else split_commas (part ++ c ∷ []) s

module _ (F : Doubles) where
  open F use {Double, zero, tenth, two, add, sub, mul, div, sqrt, less, leq}

  abbrev pub blank : LegTrack Double
  blank = record {
    last_x = zero;
    last_y = zero;
    last_seen_sec = zero;
    first_seen_sec = zero;
    displacement_sum = zero;
    time_span = zero;
    observation_count = 0;
    prev_x = zero;
    prev_y = zero;
    has_prev = false;
    is_candidate = false;
    confirmed_by_camera = false;
  }

  abbrev pub distance : Double → Double → Double → Double → Double
  distance x y x' y' = let dx = sub x x' in let dy = sub y y' in sqrt (add (mul dx dx) (mul dy dy))

  -- One obstacle of a report.
  unfoldable pub observe :
      Config Double → Double → Obstacle Double → LegTrack Double → LegTrack Double
  observe c t obs track =
      let first = if track.observation_count == 0 then t else track.first_seen_sec in
      let moved =
        if track.has_prev
        then add track.displacement_sum (distance obs.x obs.y track.prev_x track.prev_y)
        else track.displacement_sum in
      if less obs.width c.min_width
      then record track { is_candidate = false; last_seen_sec = t }
      else if less c.max_width obs.width
      then record track { is_candidate = false; last_seen_sec = t }
      else record track {
        first_seen_sec = first;
        displacement_sum = moved;
        prev_x = track.last_x;
        prev_y = track.last_y;
        has_prev = ltb 0 track.observation_count;
        last_x = obs.x;
        last_y = obs.y;
        last_seen_sec = t;
        time_span = sub t first;
        observation_count = suc track.observation_count;
      }

  -- `clock - stamp > limit`
  abbrev pub is_older : Double → Double → Double → Bool
  is_older clock stamp limit = less limit (sub clock stamp)

  unfoldable pub evict_stale_tracks :
      Config Double → Double → LegFilterNode Double → LegFilterNode Double
  evict_stale_tracks c clock n = record n {
    tracks = keep (λ entry. not (is_older clock entry.1.last_seen_sec c.eviction_timeout)) n.tracks;
    confirmed_humans =
        keep (λ entry. not (is_older clock entry.1.timestamp_sec (mul c.camera_stale_sec two)))
          n.confirmed_humans;
  }

  unfoldable pub track_all :
      Config Double
      → Double
      → List (Obstacle Double)
      → List (ℕ × LegTrack Double)
      → List (ℕ × LegTrack Double)
  track_all c t [] tracks = tracks
  track_all c t (obs ∷ rest) tracks =
      track_all c t rest (update obs.id blank (observe c t obs) tracks)

  unfoldable pub obstacle_callback :
      Config Double → Double → List (Obstacle Double) → LegFilterNode Double → LegFilterNode Double
  obstacle_callback c t unmatched n =
      evict_stale_tracks c t (record n { tracks = track_all c t unmatched n.tracks })

  abbrev pub nobody : ConfirmedHuman Double
  nobody = record { x = zero; y = zero; timestamp_sec = zero }

  unfoldable pub confirm_all :
      Double → List Text → List (Text × ConfirmedHuman Double) → List (Text × ConfirmedHuman Double)
  confirm_all now [] humans = humans
  confirm_all now ([] ∷ ids) humans = confirm_all now ids humans
  confirm_all now ((c ∷ id) ∷ ids) humans =
      confirm_all now ids
        (update (c ∷ id) nobody (λ human. record human { timestamp_sec = now }) humans)

  unfoldable pub humans_tracked_callback :
      Double → Text → LegFilterNode Double → LegFilterNode Double
  humans_tracked_callback now text n = record n {
    confirmed_humans = confirm_all now (split_commas [] text) n.confirmed_humans;
  }

  unfoldable pub passes_leg_filter : Config Double → LegTrack Double → Double → Bool
  passes_leg_filter c track clock =
      if ltb track.observation_count c.min_observations
      then false
      else if less tenth track.time_span
          && leq c.min_velocity (div track.displacement_sum track.time_span)
      then true
      else if less track.displacement_sum tenth
          && is_older clock track.first_seen_sec c.stationary_timeout
      then false
      else track.confirmed_by_camera

  unfoldable pub matches_camera_human :
      Config Double → List (Text × ConfirmedHuman Double) → Double → Double → Double → Bool
  matches_camera_human c humans x y clock =
      if not c.enable_camera_fusion
      then false
      else any
          (λ entry.
            not (is_older clock entry.1.timestamp_sec c.camera_stale_sec)
            && less
                (add (mul (sub x entry.1.x) (sub x entry.1.x))
                  (mul (sub y entry.1.y) (sub y entry.1.y)))
                (mul c.camera_match_radius c.camera_match_radius))
          humans

  unfoldable pub classify :
      Config Double
      → List (Text × ConfirmedHuman Double)
      → Double
      → LegTrack Double
      → LegTrack Double
  unfolding passes_leg_filter matches_camera_human
  classify c humans clock track =
      let seen = record track {
        confirmed_by_camera = matches_camera_human c humans track.last_x track.last_y clock;
      } in
      record seen { is_candidate = passes_leg_filter c seen clock }

  unfoldable pub classify_all :
      Config Double
      → List (Text × ConfirmedHuman Double)
      → Double
      → List (ℕ × LegTrack Double)
      → List (ℕ × LegTrack Double)
  classify_all c humans clock [] = []
  classify_all c humans clock ((id, track) ∷ rest) =
      (id, classify c humans clock track) ∷ classify_all c humans clock rest

  unfoldable pub candidates : List (ℕ × LegTrack Double) → List (Candidate Double)
  candidates [] = []
  candidates ((id, track) ∷ rest) =
      if track.is_candidate
      then record {
        id = id;
        last_x = track.last_x;
        last_y = track.last_y;
        confirmed_by_camera = track.confirmed_by_camera;
      }
        ∷ candidates rest
      else candidates rest

  unfoldable pub publish_candidates :
      Config Double → Double → LegFilterNode Double → LegFilterNode Double
  publish_candidates c clock n =
      let classified = classify_all c n.confirmed_humans clock n.tracks in
      record n {
        tracks = classified;
        bodies_tracked = elim (candidates classified) [
          | [] ↦ n.bodies_tracked
          | snapshot ∷ rest ↦ n.bodies_tracked ++ (snapshot ∷ rest) ∷ []
        ];
      }
