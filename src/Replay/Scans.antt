-- ===== src/Replay/Scans.antt =====
-- The laser scans that a replay publishes.
use rises.Base.{
  ℕ, ◌+◌, ◌≤◌, ◌<◌, ◌≡◌, refl, sym, ap, ◌∙◌, inl, inr, Bool, true, false, ◌&&◌, List, [], ◌∷◌, ◌++◌,
  append-nil, append_assoc, map, Option, length, ltb, leb, ◌==◌, max, keep, All, arith, Bool-cases,
}
use rises.Replay.{
  Transform, TfReplayManager, play, is_done, publish_transform, relay_message, relay_messages,
  publish_laser_scan, publish_laser_scans, publish_validation, publish_validations,
  replay_timer_callback, run, start_replay,
}
use rises.Replay.Progress.{upto, play_from-fresh, Played, play-Played, clear-Played}

-- The latest of some times.
abbrev pub latest : ℕ → List ℕ → ℕ
latest m [] = m
latest m (now ∷ times) = latest (max m now) times

-- The messages stand in the order of their times.
abbrev pub InOrder : {Message : Type 0} → List (ℕ × Message) → Type 0
InOrder [] = Unit
InOrder (e ∷ l) = All (λ f. e.0 ≤ f.0) l × InOrder l

none_due :
    {Message : Type 0} (m t : ℕ) (l : List (ℕ × Message))
    → ltb m t ≡ true
    → All (λ f. t ≤ f.0) l
    → keep (λ e. leb e.0 m) l ≡ []
none_due m t [] h k = refl
none_due m t ((u, a) ∷ l) h k =
    let late : leb u m ≡ false = ground (arith, k.0) in rw late (none_due m t l h k.1)

-- In a sorted buffer, the messages before the first later one are all those that are due.
upto-keep :
    {Message : Type 0} (m : ℕ) (l : List (ℕ × Message))
    → InOrder l
    → upto m l ≡ map (λ e. e.1) (keep (λ e. leb e.0 m) l)
upto-keep m [] h = refl
upto-keep m ((t, a) ∷ l) h = elim (Bool-cases (ltb m t)) [
  | inl late ↦
      let gone : leb t m ≡ false = ground arith in rw (late, gone, none_due m t l late h.0) refl
  | inr due ↦
      let kept : leb t m ≡ true = ground arith in
      rw (due, kept) (ap (λ x. a ∷ x) (upto-keep m l h.1))
]

module _ {Content Scan Note Report : Type 0} where
  -- What the other topics' publishers leave alone.
  abbrev SameScans :
      TfReplayManager Content Scan Note Report → TfReplayManager Content Scan Note Report → Type 0
  SameScans r s =
      (s.laserscans ≡ r.laserscans)
      × (s.has_laserscan_pub ≡ r.has_laserscan_pub)
      × (s.laserscan_topic ≡ r.laserscan_topic)

  publish_transform-SameScans :
      (t : Transform Content) (r : TfReplayManager Content Scan Note Report)
      → SameScans r (publish_transform t r)
  unfolding publish_transform
  publish_transform-SameScans t r = ground arith

  relay_message-SameScans :
      (l : List (Transform Content)) (r : TfReplayManager Content Scan Note Report)
      → SameScans r (relay_message l r)
  unfolding relay_message
  relay_message-SameScans [] r = (refl, refl, refl)
  relay_message-SameScans (t ∷ l) r =
      let first = publish_transform-SameScans t r in
      let rest = relay_message-SameScans l (publish_transform t r) in
      (rest.0 ∙ first.0, rest.1 ∙ first.1, rest.2 ∙ first.2)

  relay_messages-SameScans :
      (l : List (List (Transform Content))) (r : TfReplayManager Content Scan Note Report)
      → SameScans r (relay_messages l r)
  unfolding relay_messages
  relay_messages-SameScans [] r = (refl, refl, refl)
  relay_messages-SameScans (m ∷ l) r =
      let first = relay_message-SameScans m r in
      let rest = relay_messages-SameScans l (relay_message m r) in
      (rest.0 ∙ first.0, rest.1 ∙ first.1, rest.2 ∙ first.2)

  publish_laser_scans-appends :
      (l : List Scan) (r : TfReplayManager Content Scan Note Report)
      → r.has_laserscan_pub ≡ true
      → let s = publish_laser_scans l r in
        (s.laserscans ≡ r.laserscans)
        × (s.has_laserscan_pub ≡ true)
        × (s.laserscan_topic ≡ r.laserscan_topic ++ l)
  unfolding publish_laser_scans publish_laser_scan
  publish_laser_scans-appends [] r h = (refl, h, sym (append-nil r.laserscan_topic))
  publish_laser_scans-appends (scan ∷ l) r h =
      let one : publish_laser_scan scan r
          ≡ record r { laserscan_topic = r.laserscan_topic ++ scan ∷ [] } =
        ground arith in
      let rest =
        publish_laser_scans-appends l
          (record r { laserscan_topic = r.laserscan_topic ++ scan ∷ [] }) h in
      rw (publish_laser_scans, one)
        (rest.0, rest.1, rest.2 ∙ append_assoc r.laserscan_topic (scan ∷ []) l)

module _ {Content Scan Note Report : Type 0} (read : Note → Option Report) where
  publish_validation-SameScans :
      (note : Note) (r : TfReplayManager Content Scan Note Report)
      → SameScans r (publish_validation read note r)
  unfolding publish_validation
  publish_validation-SameScans note r = ground arith

  publish_validations-SameScans :
      (l : List Note) (r : TfReplayManager Content Scan Note Report)
      → SameScans r (publish_validations read l r)
  unfolding publish_validations
  publish_validations-SameScans [] r = (refl, refl, refl)
  publish_validations-SameScans (note ∷ l) r =
      let first = publish_validation-SameScans note r in
      let rest = publish_validations-SameScans l (publish_validation read note r) in
      (rest.0 ∙ first.0, rest.1 ∙ first.1, rest.2 ∙ first.2)

  -- The scans of a sorted buffer have been published up to a time, after those published before.
  record Reached (before : List Scan) (sorted : List (ℕ × Scan)) (m : ℕ)
      (r : TfReplayManager Content Scan Note Report) : Type 0 where
    played : Played m sorted r.laserscans
    topic : r.laserscan_topic ≡ before ++ upto m sorted
    publisher : r.has_laserscan_pub ≡ true

  abbrev all_done : TfReplayManager Content Scan Note Report → Bool
  all_done r = is_done r.tf && (is_done r.laserscans && is_done r.validations)

  -- A timer event before the end of the replay.
  timer-plays :
      (now : ℕ) (r : TfReplayManager Content Scan Note Report)
      → all_done r ≡ false
      → r.has_laserscan_pub ≡ true
      → let s = replay_timer_callback read now r in
        (s.laserscans ≡ (play now r.laserscans).1)
        × (s.has_laserscan_pub ≡ true)
        × (s.laserscan_topic ≡ r.laserscan_topic ++ (play now r.laserscans).0)
  unfolding replay_timer_callback
  timer-plays now r going has =
      let r0 : TfReplayManager Content Scan Note Report = record r {
        tf = (play now r.tf).1;
        laserscans = (play now r.laserscans).1;
        validations = (play now r.validations).1;
      } in
      let r1 = relay_messages (play now r.tf).0 r0 in
      let r2 = publish_laser_scans (play now r.laserscans).0 r1 in
      let a = relay_messages-SameScans (play now r.tf).0 r0 in
      let b = publish_laser_scans-appends (play now r.laserscans).0 r1 (a.1 ∙ has) in
      let c = publish_validations-SameScans (play now r.validations).0 r2 in
      rw (going, replay_timer_callback)
        (c.0 ∙ b.0 ∙ a.0, c.1 ∙ b.1, c.2 ∙ b.2 ∙ ap (λ x. x ++ (play now r.laserscans).0) a.2)

  timer-Reached :
      (before : List Scan) (sorted : List (ℕ × Scan)) (m now : ℕ)
      (r : TfReplayManager Content Scan Note Report)
      → Reached before sorted m r
      → Reached before sorted (max m now) (replay_timer_callback read now r)
  unfolding replay_timer_callback
  timer-Reached before sorted m now r h = elim (Bool-cases (all_done r)) [
    | inl done ↦
        let over : is_done r.laserscans ≡ true = ground arith in
        let (all, cleared) = clear-Played m now sorted r.laserscans h.played over in
        rw (done, replay_timer_callback)
          (record {
            played = cleared;
            topic = h.topic ∙ ap (λ l. before ++ l) (sym all);
            publisher = h.publisher;
          })
    | inr going ↦
        let (out, rest) = play-Played m now sorted r.laserscans h.played in
        let s = timer-plays now r going h.publisher in
        record {
          played = rw s.0 rest;
          topic =
              s.2
              ∙ rw h.topic (
                  append_assoc before (upto m sorted) (play now r.laserscans).0
                  ∙ ap (λ l. before ++ l) out);
          publisher = s.1;
        }
  ]

  -- The first timer event, from the start of the buffer.
  first-Reached :
      (sorted : List (ℕ × Scan)) (now : ℕ) (r : TfReplayManager Content Scan Note Report)
      → r.laserscans ≡ record { buffered = sorted; replay_index = 0 }
      → r.has_laserscan_pub ≡ true
      → Reached r.laserscan_topic sorted now (replay_timer_callback read now r)
  unfolding replay_timer_callback play
  first-Reached sorted now r e has = elim (Bool-cases (all_done r)) [
    | inl done ↦
        let over : is_done r.laserscans ≡ true = ground arith in
        let nothing : sorted ≡ [] = empty sorted (rw e at over) in
        rw (done, replay_timer_callback, nothing)
          (record {
            played = inr (refl, λ n. refl);
            topic = sym (append-nil r.laserscan_topic);
            publisher = has;
          })
    | inr going ↦
        let s = timer-plays now r going has in
        let fresh = play_from-fresh now sorted 0 in
        let out : (play now r.laserscans).0 ≡ upto now sorted = rw e fresh.0 in
        let index : (play now r.laserscans).1.replay_index ≡ length (upto now sorted) =
          rw e (omega (arith, fresh.1)) in
        let buffer : (play now r.laserscans).1.buffered ≡ sorted = rw e refl in
        record {
          played = rw s.0 (inl (buffer, index));
          topic = s.2 ∙ ap (λ l. r.laserscan_topic ++ l) out;
          publisher = s.1;
        }
  ]
    where
      empty : (l : List (ℕ × Scan)) → leb (length l) 0 ≡ true → l ≡ []
      empty [] h = refl
      empty (x ∷ l) h = absurd (ground arith)

  run-Reached :
      (before : List Scan) (sorted : List (ℕ × Scan)) (times : List ℕ) (m : ℕ)
      (r : TfReplayManager Content Scan Note Report)
      → Reached before sorted m r
      → Reached before sorted (latest m times) (run read times r)
  unfolding run
  run-Reached before sorted [] m r h = h
  run-Reached before sorted (now ∷ times) m r h =
      run-Reached before sorted times (max m now) (replay_timer_callback read now r)
        (timer-Reached before sorted m now r h)

  -- A replay that starts with something buffered, with a publisher for the scans and a sort that
  -- sorts them by time, has published after timer events at any replay times, in the order of
  -- their times and each once, exactly the scans that are due at the latest of these.
  pub run-scans :
      (sort : (Message : Type 0) → List (ℕ × Message) → List (ℕ × Message)) (first : ℕ)
      (times : List ℕ) (r : TfReplayManager Content Scan Note Report)
      → 0 < length r.tf.buffered + length r.laserscans.buffered + length r.validations.buffered
      → r.has_laserscan_pub ≡ true
      → InOrder (sort Scan r.laserscans.buffered)
      → (run read (first ∷ times) (start_replay sort r)).laserscan_topic
        ≡ r.laserscan_topic
          ++ map
              (λ e. e.1)
              (keep (λ e. leb e.0 (latest first times)) (sort Scan r.laserscans.buffered))
  unfolding start_replay run
  run-scans sort first times r some_left has ordered =
      let sorted = sort Scan r.laserscans.buffered in
      let counted : (length r.tf.buffered
              + length r.laserscans.buffered
              + length r.validations.buffered
            == 0)
          ≡ false =
        ground arith in
      let s : TfReplayManager Content Scan Note Report = record r {
        tf = record { buffered = sort _ r.tf.buffered; replay_index = 0 };
        laserscans = record { buffered = sorted; replay_index = 0 };
        validations = record { buffered = sort _ r.validations.buffered; replay_index = 0 };
        is_replaying = true;
      } in
      rw (counted, start_replay)
        ((run-Reached r.laserscan_topic sorted times first (replay_timer_callback read first s)
            (first-Reached sorted first s refl has)).topic
          ∙ rw (upto-keep (latest first times) sorted ordered) refl)
