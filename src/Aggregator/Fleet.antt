-- ===== src/Aggregator/Fleet.antt =====
-- What the fleet's topic carries.
use rises.Base.{
  ℕ, ◌+◌, ◌*◌, ◌%◌, ◌≤◌, ◌≡◌, map, count_if, ◌&&◌, ◌==◌, Bool-cases, refl, ◌∙◌, sym, ap, inl, inr,
  List, [], ◌∷◌, ◌++◌, append-nil, append_assoc, Option, none, some, arith, if◌then◌else◌, Text,
  Option-cases, text_eq, text_eq_iff,
}
use rises.Base.Words.{u64}
use rises.Base.Dict.{lookup, update, lookup-update, text_keys}
use rises.Aggregator.{
  Obstacle, shift_id, ObstacleReport, ObstacleAggregator, Event, report, timer, start, shifted,
  report_callback, agv_index_for, combine, publish_combined, step, run,
}
use rises.Aggregator.Ids.{agv_index}

module _ {Content : Type 0} where
  -- The report that came last from a vehicle.
  abbrev pub last_report :
      Text
      → List (Event Content)
      → Option (ObstacleReport Content)
      → Option (ObstacleReport Content)
  last_report ns [] last = last
  last_report ns (report from msg ∷ rest) last =
      last_report ns rest (if text_eq from ns then some msg else last)
  last_report ns (timer ∷ rest) last = last_report ns rest last

  -- The obstacles, each with the index's share added to its id, as a 64-bit number.
  abbrev pub numbered : ℕ → List (Obstacle Content) → List (Obstacle Content)
  numbered index = map (λ obs. record {
    id = (obs.id + index * 1000000) % 18446744073709551616;
    content = obs.content;
  })

  shifted-numbered :
      (index : ℕ) (obstacles : List (Obstacle Content))
      → shifted index obstacles ≡ numbered index obstacles
  unfolding shifted shift_id
  shifted-numbered index [] = refl
  shifted-numbered index (obs ∷ rest) =
      let once : u64 (obs.id + u64 (index * 1000000))
          ≡ (obs.id + index * 1000000) % 18446744073709551616 =
        omega arith in
      rw (once, shifted-numbered index rest) refl

  -- How often a vehicle has an entry.
  abbrev pub entries : Text → List (Text × ObstacleReport Content) → ℕ
  entries ns = count_if (λ entry. text_eq ns entry.0)

  entries-update :
      (ns from : Text) (msg : ObstacleReport Content) (l : List (Text × ObstacleReport Content))
      → entries ns (update from msg (λ _. msg) l)
        ≡ (if text_eq from ns && entries ns l == 0 then 1 else entries ns l)
  unfolding update
  entries-update ns from msg [] = ground (arith, text_eq_iff ns from, text_eq_iff from ns)
  entries-update ns from msg ((k, v) ∷ l) = elim (Bool-cases (text_eq k from)) [
    | inl same ↦ rw same (ground (arith, text_eq_iff k from, text_eq_iff from ns, text_eq_iff ns k))
    | inr other ↦
        rw (other, entries-update ns from msg l)
          (ground (arith, text_eq_iff k from, text_eq_iff from ns, text_eq_iff ns k))
  ]

  entries-once :
      (ns from : Text) (msg : ObstacleReport Content) (l : List (Text × ObstacleReport Content))
      → entries ns l ≤ 1
      → entries ns (update from msg (λ _. msg) l) ≤ 1
  entries-once ns from msg l h = rw (entries-update ns from msg l) (ground arith)

module _ (hash : Text → ℕ) {Content : Type 0} where
  abbrev all_unmatched : List (Text × ObstacleReport Content) → List (Obstacle Content)
  all_unmatched [] = []
  all_unmatched ((ns, r) ∷ rest) =
      numbered (agv_index hash ns) r.unmatched_obstacles ++ all_unmatched rest

  abbrev all_matched : List (Text × ObstacleReport Content) → List (Obstacle Content)
  all_matched [] = []
  all_matched ((ns, r) ∷ rest) =
      numbered (agv_index hash ns) r.matched_obstacles ++ all_matched rest

  -- One report of all the obstacles, under the ids of their vehicles; none before the first.
  abbrev pub fleet_report : List (Text × ObstacleReport Content) → List (ObstacleReport Content)
  fleet_report [] = []
  fleet_report (x ∷ rest) =
      record {
        unmatched_obstacles = all_unmatched (x ∷ rest);
        matched_obstacles = all_matched (x ∷ rest);
      }
      ∷ []

  abbrev blank : ObstacleReport Content
  blank = record { unmatched_obstacles = []; matched_obstacles = [] }

  -- The cache holds the indices that the namespaces have.
  abbrev Coherent : ObstacleAggregator Content → Type 0
  Coherent a = (ns : Text) (i : ℕ) → lookup ns a.agv_index_cache ≡ some i → i ≡ agv_index hash ns

  record Same (a b : ObstacleAggregator Content) : Type 0 where
    coherent : Coherent b
    reports : b.latest_reports ≡ a.latest_reports
    topic : b.fleet_topic ≡ a.fleet_topic

  agv_index_for-Same :
      (ns : Text) (a : ObstacleAggregator Content)
      → Coherent a
      → ((agv_index_for hash ns a).0 ≡ agv_index hash ns) × Same a (agv_index_for hash ns a).1
  unfolding agv_index_for
  agv_index_for-Same ns a h = elim (Option-cases (lookup ns a.agv_index_cache)) [
    | inl e ↦
        rw (e, agv_index_for)
          (
            refl,
            record {
              coherent = λ n i found.
                  let at =
                    lookup-update ns n (agv_index hash ns) (λ _. agv_index hash ns)
                      a.agv_index_cache in
                  ground (arith, at, text_eq_iff ns n, h n i);
              reports = refl;
              topic = refl;
            },
          )
    | inr (i, e) ↦
        rw (e, agv_index_for) (h ns i e, record { coherent = h; reports = refl; topic = refl })
  ]

  abbrev joined :
      ObstacleReport Content → List (Text × ObstacleReport Content) → ObstacleReport Content
  joined c l = record {
    unmatched_obstacles = c.unmatched_obstacles ++ all_unmatched l;
    matched_obstacles = c.matched_obstacles ++ all_matched l;
  }

  combine-joined :
      (l : List (Text × ObstacleReport Content)) (c : ObstacleReport Content)
      (a : ObstacleAggregator Content)
      → Coherent a
      → ((combine hash l c a).0 ≡ joined c l) × Same a (combine hash l c a).1
  unfolding combine
  combine-joined [] c a h = (
    rw (append-nil c.unmatched_obstacles, append-nil c.matched_obstacles) refl,
    record { coherent = h; reports = refl; topic = refl },
  )
  combine-joined ((ns, r) ∷ l) c a h =
      let (at, same) = agv_index_for-Same ns a h in
      let next =
        combine-joined l
          (record {
            unmatched_obstacles =
                c.unmatched_obstacles ++ shifted (agv_index_for hash ns a).0 r.unmatched_obstacles;
            matched_obstacles =
                c.matched_obstacles ++ shifted (agv_index_for hash ns a).0 r.matched_obstacles;
          })
          (agv_index_for hash ns a).1 same.coherent in
      (
        next.0
            ∙ rw
                (
                  at,
                  shifted-numbered (agv_index hash ns) r.unmatched_obstacles,
                  shifted-numbered (agv_index hash ns) r.matched_obstacles,
                  append_assoc c.unmatched_obstacles
                      (numbered (agv_index hash ns) r.unmatched_obstacles) (all_unmatched l),
                  append_assoc c.matched_obstacles
                      (numbered (agv_index hash ns) r.matched_obstacles) (all_matched l),
                )
                refl,
        record {
          coherent = next.1.coherent;
          reports = next.1.reports ∙ same.reports;
          topic = next.1.topic ∙ same.topic;
        },
      )

  publish-fleet :
      (a : ObstacleAggregator Content)
      → Coherent a
      → ((publish_combined hash a).fleet_topic ≡ a.fleet_topic ++ fleet_report a.latest_reports)
        × Coherent (publish_combined hash a)
  unfolding publish_combined
  publish-fleet a h = cases a.latest_reports a.agv_index_cache a.fleet_topic h
    where
      cases :
          (l : List (Text × ObstacleReport Content)) (cache : List (Text × ℕ))
          (topic : List (ObstacleReport Content))
          → let b : ObstacleAggregator Content = record {
            latest_reports = l;
            agv_index_cache = cache;
            fleet_topic = topic;
          } in
            Coherent b
            → ((publish_combined hash b).fleet_topic ≡ topic ++ fleet_report l)
              × Coherent (publish_combined hash b)
      cases [] cache topic h = (sym (append-nil topic), h)
      cases (x ∷ l) cache topic h =
          let out =
            combine-joined (x ∷ l) blank
              (record { latest_reports = x ∷ l; agv_index_cache = cache; fleet_topic = topic }) h in
          (rw (out.0, out.1.topic) refl, out.1.coherent)

  step-Coherent :
      (e : Event Content) (a : ObstacleAggregator Content) → Coherent a → Coherent (step hash e a)
  unfolding step report_callback
  step-Coherent (report ns msg) a h = h
  step-Coherent timer a h = (publish-fleet a h).1

  run-Coherent :
      (es : List (Event Content)) (a : ObstacleAggregator Content)
      → Coherent a
      → Coherent (run hash es a)
  unfolding run
  run-Coherent [] a h = h
  run-Coherent (e ∷ es) a h = run-Coherent es (step hash e a) (step-Coherent e a h)

  agv_index_for-reports :
      (ns : Text) (a : ObstacleAggregator Content)
      → (agv_index_for hash ns a).1.latest_reports ≡ a.latest_reports
  unfolding agv_index_for
  agv_index_for-reports ns a = ground arith

  combine-reports :
      (l : List (Text × ObstacleReport Content)) (c : ObstacleReport Content)
      (a : ObstacleAggregator Content)
      → (combine hash l c a).1.latest_reports ≡ a.latest_reports
  unfolding combine
  combine-reports [] c a = refl
  combine-reports ((ns, r) ∷ l) c a =
      combine-reports l _ (agv_index_for hash ns a).1 ∙ agv_index_for-reports ns a

  publish_combined-reports :
      (a : ObstacleAggregator Content) → (publish_combined hash a).latest_reports ≡ a.latest_reports
  unfolding publish_combined
  publish_combined-reports a = ground (arith, combine-reports a.latest_reports blank a)

  step-last :
      (e : Event Content) (es : List (Event Content)) (ns : Text) (a : ObstacleAggregator Content)
      → last_report ns es (lookup ns (step hash e a).latest_reports)
        ≡ last_report ns (e ∷ es) (lookup ns a.latest_reports)
  unfolding step report_callback
  step-last (report from msg) es ns a =
      ap (last_report ns es) (lookup-update from ns msg (λ _. msg) a.latest_reports)
  step-last timer es ns a = ap (λ l. last_report ns es (lookup ns l)) (publish_combined-reports a)

  run-last :
      (es : List (Event Content)) (ns : Text) (a : ObstacleAggregator Content)
      → lookup ns (run hash es a).latest_reports ≡ last_report ns es (lookup ns a.latest_reports)
  unfolding run
  run-last [] ns a = refl
  run-last (e ∷ es) ns a = run-last es ns (step hash e a) ∙ step-last e es ns a

  -- After any reports and timer events, the report that is kept for a vehicle is the last one
  -- that came from it.
  pub latest_reports-last :
      (es : List (Event Content)) (ns : Text)
      → lookup ns (run hash es start).latest_reports ≡ last_report ns es none
  unfolding start lookup
  latest_reports-last es ns = run-last es ns start

  step-once :
      (e : Event Content) (a : ObstacleAggregator Content) (ns : Text)
      → entries ns a.latest_reports ≤ 1
      → entries ns (step hash e a).latest_reports ≤ 1
  unfolding step report_callback
  step-once (report from msg) a ns h = entries-once ns from msg a.latest_reports h
  step-once timer a ns h = rw (publish_combined-reports a) h

  run-once :
      (es : List (Event Content)) (a : ObstacleAggregator Content) (ns : Text)
      → entries ns a.latest_reports ≤ 1
      → entries ns (run hash es a).latest_reports ≤ 1
  unfolding run
  run-once [] a ns h = h
  run-once (e ∷ es) a ns h = run-once es (step hash e a) ns (step-once e a ns h)

  -- After any reports and timer events, the table has for each vehicle the last report that came from
  -- it, once, and nothing for the others. The timer then publishes one report: the obstacles of the
  -- table, in its order, to each id the vehicle's index times 1000000 added modulo 2 ^ 64; before the
  -- first report, nothing.
  pub timer-fleet :
      (es : List (Event Content))
      → let a = run hash es start in
        ((step hash timer a).fleet_topic ≡ a.fleet_topic ++ fleet_report a.latest_reports)
        × ((ns : Text) → lookup ns a.latest_reports ≡ last_report ns es none)
        × ((ns : Text) → entries ns a.latest_reports ≤ 1)
  unfolding step start
  timer-fleet es = (
    (publish-fleet (run hash es start) (run-Coherent es start (λ ns i e. unfold lookup in cc))).0,
    latest_reports-last es,
    λ ns. run-once es start ns (omega arith),
  )
