-- ===== src/Segments/Choice.antt =====
-- Which id `getOrAssignId` gives: that of the best candidate, against a search of the whole list.
use rises.Base.{
  ◌≡◌, refl, ℕ, ◌+◌, ◌%◌, ◌<◌, Bool, false, not, ◌&&◌, List, [], ◌∷◌, ◌++◌, Option, none, some,
  if◌then◌else◌, ltb, leb, All, All-keep, keep, Bool-cases, inl, inr, arith,
}
use rises.Base.Int.{pos, negsuc, leb_ℤ}
use rises.Segments.{
  Entry, Observation, Tracker, Best, Window, window, columns, minus_one, is_id_claimed, consider,
  find_best, assign, get_or_assign_id,
}
use rises.Segments.Scan.{Sorted, in_columns, consider_all, scan_columns-consider_all}

abbrev pub in_window : {Shape : Type 0} → Window → Entry Shape → Bool
in_window w e =
    (leb_ℤ w.search_col_min e.cell_x && leb_ℤ e.cell_x w.search_col_max)
    && (leb_ℤ w.search_row_min e.cell_y && leb_ℤ e.cell_y w.search_row_max)

module _ {Shape : Type 0} (drifted : Shape → Shape → Bool) (claimed_ids : List ℕ)
    (seen : Shape) where
  abbrev pub is_eligible : Entry Shape → Bool
  is_eligible e = not (is_id_claimed claimed_ids e.id) && not (drifted seen e.origin)

module _ {Shape : Type 0} (score : Shape → Shape → ℕ) (seen : Shape) where
  -- The later of two only where its score is higher.
  abbrev pub better : Option (Entry Shape) → Option (Entry Shape) → Option (Entry Shape)
  better none c = c
  better (some e) none = some e
  better (some e) (some f) =
      if ltb (score e.shape seen) (score f.shape seen) then some f else some e

  -- The first of the entries with the highest score.
  abbrev pub first_best : List (Entry Shape) → Option (Entry Shape)
  first_best [] = none
  first_best (e ∷ es) = better (some e) (first_best es)

  abbrev rank : Option (Entry Shape) → Best Shape
  rank none = record { score = negsuc 0; id = minus_one; origin = none }
  rank (some e) = record { score = pos (score e.shape seen); id = e.id; origin = some e.origin }

  better_assoc : (a b c : Option (Entry Shape)) → better (better a b) c ≡ better a (better b c)
  better_assoc none b c = refl
  better_assoc (some e) none c = refl
  better_assoc (some e) (some f) none = ground arith
  better_assoc (some e) (some f) (some g) = ground arith

module _ {Shape : Type 0} (drifted : Shape → Shape → Bool) (score : Shape → Shape → ℕ)
    (claimed_ids : List ℕ) (seen : Shape) where
  consider-rank :
      (b : Option (Entry Shape)) (e : Entry Shape)
      → consider drifted score claimed_ids seen (rank score seen b) e
        ≡ rank score seen
            (if is_eligible drifted claimed_ids seen e then better score seen b (some e) else b)
  unfolding consider
  consider-rank none e = ground arith
  consider-rank (some f) e = ground arith

  consider_all-rank :
      (b : Option (Entry Shape)) (es : List (Entry Shape))
      → consider_all drifted score claimed_ids seen (rank score seen b) es
        ≡ rank score seen (
            better score seen b
              (first_best score seen (keep (is_eligible drifted claimed_ids seen) es)))
  consider_all-rank none [] = refl
  consider_all-rank (some f) [] = refl
  consider_all-rank b (e ∷ es) = elim (Bool-cases (is_eligible drifted claimed_ids seen e)) [
    | inl good ↦
        rw
          (
            consider-rank b e,
            good,
            consider_all-rank (better score seen b (some e)) es,
            better_assoc score seen b (some e)
                (first_best score seen (keep (is_eligible drifted claimed_ids seen) es)),
          )
          refl
    | inr bad ↦ rw (consider-rank b e, bad, consider_all-rank b es) refl
  ]

keep-columns_window :
    {Shape : Type 0} (w : Window) (es : List (Entry Shape))
    → keep (in_columns w w.search_col_min (columns w.search_col_min w.search_col_max)) es
      ≡ keep (in_window w) es
keep-columns_window w [] = refl
keep-columns_window w (e ∷ es) = ground (arith, keep-columns_window w es)

module _ {Shape : Type 0} (drifted : Shape → Shape → Bool) (score : Shape → Shape → ℕ) where
  abbrev pub candidates : Tracker Shape → Observation Shape → List (Entry Shape)
  candidates t o =
      keep (is_eligible drifted t.claimed_ids o.seen) (keep (in_window (window o)) t.previous)

  find_best-rank :
      (t : Tracker Shape) (o : Observation Shape)
      → Sorted t.previous
      → find_best drifted score t o ≡ rank score o.seen (first_best score o.seen (candidates t o))
  unfolding find_best
  find_best-rank t o h =
      rw
        (
          scan_columns-consider_all drifted score t.claimed_ids o.seen (window o) t.previous _ _ _
              h,
          keep-columns_window (window o) t.previous,
        )
        (consider_all-rank drifted score t.claimed_ids o.seen none _)

abbrev pub id_of : {Shape : Type 0} → Tracker Shape → Option (Entry Shape) → ℕ
id_of t none = t.next_id
id_of t (some e) = e.id

-- The tracker after an observation, given the entry that it continues, if any.
abbrev pub continued :
    {Shape : Type 0} → Tracker Shape → Observation Shape → Option (Entry Shape) → Tracker Shape
continued t o none = record t {
  next_id = (t.next_id + 1) % 4294967296;
  claimed_ids = t.claimed_ids ++ t.next_id ∷ [];
  current =
      t.current
      ++ record { cell_x = o.gx; cell_y = o.gy; shape = o.seen; origin = o.seen; id = t.next_id }
        ∷ [];
}
continued t o (some e) = record t {
  claimed_ids = t.claimed_ids ++ e.id ∷ [];
  current =
      t.current
      ++ record { cell_x = o.gx; cell_y = o.gy; shape = o.seen; origin = e.origin; id = e.id } ∷ [];
}

abbrev pub Satisfies : {Shape : Type 0} → (Entry Shape → Type 0) → Option (Entry Shape) → Type 0
Satisfies P none = Unit
Satisfies P (some e) = P e

module _ {Shape : Type 0} (score : Shape → Shape → ℕ) where
  better-Satisfies :
      (P : Entry Shape → Type 0) (seen : Shape) (e : Entry Shape) (c : Option (Entry Shape))
      → P e
      → Satisfies P c
      → Satisfies P (better score seen (some e) c)
  better-Satisfies P seen e none h k = h
  better-Satisfies P seen e (some f) h k =
      elim (Bool-cases (ltb (score e.shape seen) (score f.shape seen))) [
        | inl more ↦ rw more k
        | inr less ↦ rw less h
      ]

  pub first_best-Satisfies :
      (P : Entry Shape → Type 0) (seen : Shape) (es : List (Entry Shape))
      → All P es
      → Satisfies P (first_best score seen es)
  first_best-Satisfies P seen [] h = tt
  first_best-Satisfies P seen (e ∷ es) h =
      better-Satisfies P seen e (first_best score seen es) h.0 (first_best-Satisfies P seen es h.1)

  assign-rank :
      (c : Option (Entry Shape)) (o : Observation Shape) (t : Tracker Shape)
      → Satisfies (λ e. e.id < 2147483648) c
      → assign (rank score o.seen c) o t ≡ (id_of t c, continued t o c)
  unfolding assign
  assign-rank none o t small = refl
  assign-rank (some e) o t small =
      let positive : leb 2147483648 e.id ≡ false = ground arith in rw positive refl

module _ {Shape : Type 0} (drifted : Shape → Shape → Bool) (score : Shape → Shape → ℕ) where
  -- The entries of the last cycle are searched as if they were all looked at, if they are sorted and their
  -- ids are not negative: of the entries in the window that are neither claimed nor drifted the
  -- observation takes the id and the origin of the first with the highest score, also where that is 0;
  -- only where there is none does it take a new id and start an origin.
  pub get_or_assign_id-continued :
      (t : Tracker Shape) (o : Observation Shape)
      → Sorted t.previous
      → All (λ e. e.id < 2147483648) t.previous
      → get_or_assign_id drifted score t o ≡ (
          let choice = first_best score o.seen (candidates drifted score t o) in
          (id_of t choice, continued t o choice))
  unfolding get_or_assign_id
  get_or_assign_id-continued t o sorted small =
      let P = λ (e : Entry Shape). e.id < 2147483648 in
      rw (find_best-rank drifted score t o sorted) (
        assign-rank score _ o t
          (first_best-Satisfies score P o.seen _ (All-keep P _ _ (All-keep P _ t.previous small))))
