-- ===== src/Segments/Unique.antt =====
-- The ids of a cycle are pairwise different, over any use of the tracker.
use mathlib.Core.List.{map-append}
use rises.Base.{
  ◌≡◌, refl, sym, ◌∙◌, ℕ, ◌+◌, ◌%◌, ◌≤◌, ◌<◌, Bool, true, false, ◌||◌, List, [], ◌∷◌, ◌++◌, Option,
  none, some, map, leb, ◌==◌, length, All, All-keep, All-map, All-count_if, keep, count_if,
  count_if-append, count_if-le, Bool-cases, inl, inr, arith,
}
use rises.Segments.{
  Entry, Observation, Tracker, Action, begin, observe, finish, reset, start, is_id_claimed,
  get_or_assign_id, window, assign, begin_scan_cycle, end_scan_cycle, clear, step, run,
}
use rises.Segments.Scan.{Sorted}
use rises.Segments.Choice.{
  is_eligible, Satisfies, in_window, first_best, candidates, continued, id_of,
  get_or_assign_id-continued, first_best-Satisfies,
}

abbrev pub has_id : {Shape : Type 0} → ℕ → Entry Shape → Bool
has_id i e = e.id == i

-- The id has not been given, with `next` to be given next.
abbrev pub outside : {Shape : Type 0} → ℕ → Entry Shape → Bool
outside next e = (e.id == 0) || leb next e.id

-- In the cycle that runs, and in the last one, ids are positive, smaller than the next, and pairwise
-- different; the claimed ids are those of the cycle that runs, and the entries of the last are sorted.
pub record IsConsistent {Shape : Type 0} (t : Tracker Shape) : Type 0 where
  pub next_pos : 1 ≤ t.next_id
  pub previous_given : count_if (outside t.next_id) t.previous ≡ 0
  pub current_given : count_if (outside t.next_id) t.current ≡ 0
  pub claimed : t.claimed_ids ≡ map (λ e. e.id) t.current
  pub previous_once : (i : ℕ) → count_if (has_id i) t.previous ≤ 1
  pub current_once : (i : ℕ) → count_if (has_id i) t.current ≤ 1
  pub sorted : Sorted t.previous

module _ {Shape : Type 0} where
  unclaimed :
      (id : ℕ) (es : List (Entry Shape))
      → is_id_claimed (map (λ e. e.id) es) id ≡ false
      → count_if (has_id id) es ≡ 0
  unclaimed id [] h = refl
  unclaimed id (e ∷ es) h = ground (arith, unclaimed id es)

  -- An id that has not been given stands nowhere.
  fresh :
      (next : ℕ) (es : List (Entry Shape))
      → count_if (outside next) es ≡ 0
      → count_if (has_id next) es ≡ 0
  fresh next es h =
      let le = count_if-le (has_id next) (outside next) (λ e g. ground arith) es in omega arith

  still_given :
      (next : ℕ) (es : List (Entry Shape))
      → count_if (outside next) es ≡ 0
      → count_if (outside (next + 1)) es ≡ 0
  still_given next es h =
      let le = count_if-le (outside (next + 1)) (outside next) (λ e g. ground arith) es in
      omega arith

  -- One more entry, with an id that is given and that no entry of the cycle has.
  append_once :
      (es : List (Entry Shape)) (e : Entry Shape)
      → ((i : ℕ) → count_if (has_id i) es ≤ 1)
      → count_if (has_id e.id) es ≡ 0
      → (i : ℕ) → count_if (has_id i) (es ++ e ∷ []) ≤ 1
  append_once es e once none_yet i =
      rw (count_if-append (has_id i) es (e ∷ [])) (elim (Bool-cases (e.id == i)) [
        | inl here ↦
            let same : e.id ≡ i = ground arith in
            let none_here : count_if (has_id i) es ≡ 0 = rw same at none_yet in ground arith
        | inr elsewhere ↦ ground (arith, once i)
      ])

  append_given :
      (next : ℕ) (es : List (Entry Shape)) (e : Entry Shape)
      → count_if (outside next) es ≡ 0
      → outside next e ≡ false
      → count_if (outside next) (es ++ e ∷ []) ≡ 0
  append_given next es e h given = rw (count_if-append (outside next) es (e ∷ [])) (ground arith)

  -- What is used of an entry that is continued.
  abbrev Known : Tracker Shape → Option (Entry Shape) → Type 0
  Known t none = Unit
  Known t (some e) = (outside t.next_id e ≡ false) × (is_id_claimed t.claimed_ids e.id ≡ false)

  continued-IsConsistent :
      (c : Option (Entry Shape)) (t : Tracker Shape) (o : Observation Shape)
      → t.next_id + 1 < 2147483648
      → Known t c
      → IsConsistent t
      → IsConsistent (continued t o c)
  continued-IsConsistent none t o small known v =
      let wraps_not : (t.next_id + 1) % 4294967296 ≡ t.next_id + 1 = omega arith in
      rw wraps_not (record {
        next_pos = omega arith;
        previous_given = still_given t.next_id t.previous v.previous_given;
        current_given =
            append_given _ t.current _ (still_given t.next_id t.current v.current_given)
              (let pos = v.next_pos in ground arith);
        claimed = rw (v.claimed, map-append (λ (e : Entry Shape). e.id) t.current) refl;
        previous_once = v.previous_once;
        current_once =
            append_once t.current _ v.current_once (fresh t.next_id t.current v.current_given);
        sorted = v.sorted;
      })
  continued-IsConsistent (some e) t o small known v =
      let free : is_id_claimed (map (λ f. f.id) t.current) e.id ≡ false =
        rw (sym v.claimed) known.1 in
      record {
        next_pos = v.next_pos;
        previous_given = v.previous_given;
        current_given = append_given _ t.current _ v.current_given known.0;
        claimed = rw (v.claimed, map-append (λ (f : Entry Shape). f.id) t.current) refl;
        previous_once = v.previous_once;
        current_once = append_once t.current _ v.current_once (unclaimed e.id t.current free);
        sorted = v.sorted;
      }

module _ {Shape : Type 0} (drifted : Shape → Shape → Bool) (score : Shape → Shape → ℕ) where
  All-keep_self :
      (p : Entry Shape → Bool) (es : List (Entry Shape)) → All (λ e. p e ≡ true) (keep p es)
  All-keep_self p [] = tt
  All-keep_self p (e ∷ es) = elim (Bool-cases (p e)) [
    | inl good ↦ rw good (good, All-keep_self p es)
    | inr bad ↦ rw bad (All-keep_self p es)
  ]

  both-Known :
      (t : Tracker Shape) (seen : Shape) (c : Option (Entry Shape))
      → Satisfies (λ e. outside t.next_id e ≡ false) c
      → Satisfies (λ e. is_eligible drifted t.claimed_ids seen e ≡ true) c
      → Known t c
  both-Known t seen none given eligible = tt
  both-Known t seen (some e) given eligible = (given, ground arith)

  -- In a consistent tracker an observation continues the best candidate.
  pub observe-continued :
      (t : Tracker Shape) (o : Observation Shape)
      → t.next_id + 1 < 2147483648
      → IsConsistent t
      → get_or_assign_id drifted score t o ≡ (
          let choice = first_best score o.seen (candidates drifted score t o) in
          (id_of t choice, continued t o choice))
  observe-continued t o small v = get_or_assign_id-continued drifted score t o v.sorted (
      All-map _ (λ e. e.id < 2147483648) (λ e g. ground arith) t.previous
        (All-count_if (outside t.next_id) t.previous v.previous_given))

  pub chosen-is_eligible :
      (t : Tracker Shape) (o : Observation Shape)
      → Satisfies
          (λ e. is_eligible drifted t.claimed_ids o.seen e ≡ true)
          (first_best score o.seen (candidates drifted score t o))
  chosen-is_eligible t o =
      first_best-Satisfies score (λ e. is_eligible drifted t.claimed_ids o.seen e ≡ true) o.seen
        (candidates drifted score t o)
        (All-keep_self (is_eligible drifted t.claimed_ids o.seen)
          (keep (in_window (window o)) t.previous))

  observe-IsConsistent :
      (t : Tracker Shape) (o : Observation Shape)
      → t.next_id + 1 < 2147483648
      → IsConsistent t
      → IsConsistent (get_or_assign_id drifted score t o).1
  observe-IsConsistent t o small v =
      let given = All-count_if (outside t.next_id) t.previous v.previous_given in
      let P = λ (e : Entry Shape). outside t.next_id e ≡ false in
      let chosen_given =
        first_best-Satisfies score P o.seen _ (All-keep P _ _ (All-keep P _ t.previous given)) in
      rw (observe-continued t o small v) (
        continued-IsConsistent (first_best score o.seen (candidates drifted score t o)) t o small
          (both-Known t o.seen _ chosen_given (chosen-is_eligible t o)) v)

  -- The next id grows by at most one.
  observe-next_id :
      (t : Tracker Shape) (o : Observation Shape)
      → (get_or_assign_id drifted score t o).1.next_id ≤ t.next_id + 1
  unfolding get_or_assign_id assign
  observe-next_id t o = ground arith

pub start-IsConsistent : {Shape : Type 0} → IsConsistent (start {Shape = Shape})
unfolding start
start-IsConsistent = record {
  next_pos = omega arith;
  previous_given = refl;
  current_given = refl;
  claimed = refl;
  previous_once = λ i. omega arith;
  current_once = λ i. omega arith;
  sorted = tt;
}

abbrev pub IsSort : {Shape : Type 0} → (List (Entry Shape) → List (Entry Shape)) → Type 0
IsSort {Shape} sort =
    ((es : List (Entry Shape)) → Sorted (sort es))
    × ((p : Entry Shape → Bool) (es : List (Entry Shape)) → count_if p (sort es) ≡ count_if p es)

module _ {Shape : Type 0} (drifted : Shape → Shape → Bool) (score : Shape → Shape → ℕ)
    (sort : List (Entry Shape) → List (Entry Shape)) where
  pub step-IsConsistent :
      (t : Tracker Shape) (a : Action Shape)
      → IsSort sort
      → t.next_id + 1 < 2147483648
      → IsConsistent t
      → IsConsistent (step drifted score sort t a)
        × ((step drifted score sort t a).next_id ≤ t.next_id + 1)
  unfolding step begin_scan_cycle end_scan_cycle clear start
  step-IsConsistent t begin sorts small v = (
    record {
      next_pos = v.next_pos;
      previous_given = v.previous_given;
      current_given = refl;
      claimed = refl;
      previous_once = v.previous_once;
      current_once = λ i. omega arith;
      sorted = v.sorted;
    },
    omega arith,
  )
  step-IsConsistent t finish sorts small v = (
    record {
      next_pos = v.next_pos;
      previous_given = sorts.1 (outside t.next_id) t.current ∙ v.current_given;
      current_given = refl;
      claimed = refl;
      previous_once = λ i. omega (arith, sorts.1 (has_id i) t.current, v.current_once i);
      current_once = λ i. omega arith;
      sorted = sorts.0 t.current;
    },
    omega arith,
  )
  step-IsConsistent t reset sorts small v =
      (start-IsConsistent, (let pos = v.next_pos in omega arith))
  step-IsConsistent t (observe o) sorts small v =
      (observe-IsConsistent drifted score t o small v, observe-next_id drifted score t o)

  from-IsConsistent :
      (t : Tracker Shape) (actions : List (Action Shape))
      → IsSort sort
      → t.next_id + length actions < 2147483648
      → IsConsistent t
      → IsConsistent (run drifted score sort t actions)
  unfolding run
  from-IsConsistent t [] sorts small v = v
  from-IsConsistent t (a ∷ rest) sorts small v =
      let next = step-IsConsistent t a sorts (omega arith) v in
      let grown = next.1 in
      from-IsConsistent (step drifted score sort t a) rest sorts (omega arith) next.0

  -- Fewer than 2147483647 calls of the tracker, in any order, from its start, leave it consistent:
  -- the ids given in the cycle that runs are positive and pairwise different, whatever `drifted` and
  -- `score` are, for a sort that sorts and only permutes.
  pub run-IsConsistent :
      (actions : List (Action Shape))
      → IsSort sort
      → length actions < 2147483647
      → IsConsistent (run drifted score sort start actions)
  unfolding start
  run-IsConsistent actions sorts small =
      from-IsConsistent start actions sorts (omega arith) start-IsConsistent
