-- ===== src/Segments/Tests.antt =====
-- Shapes that are numbers, with scores by distance, over two cycles.
use rises.Base.{
  ◌≡◌, refl, ℕ, ◌+◌, ◌-◌, ◌/◌, Bool, All, All-map, Bool-cases, inl, inr, false, List, [], ◌∷◌,
  if◌then◌else◌, ltb, count_if, arith,
}
use rises.Base.Int.{pos, suc_ℤ, pred_ℤ}
use rises.Segments.{
  Entry, Observation, Tracker, Action, begin, finish, observe, before, start, run, get_or_assign_id,
  step, assign, find_best, scan_columns, scan_column, lower_bound, consider, window,
  begin_scan_cycle, end_scan_cycle,
}
use rises.Segments.Scan.{Sorted}
use rises.Segments.Choice.{first_best, candidates, id_of, continued, get_or_assign_id-continued}
use rises.Segments.Unique.{IsConsistent, IsSort, run-IsConsistent}

abbrev apart : ℕ → ℕ → ℕ
apart a b = (a - b) + (b - a)

abbrev too_far : ℕ → ℕ → Bool
too_far a b = ltb 5 (apart a b)

abbrev closeness : ℕ → ℕ → ℕ
closeness a b = 10 - apart a b

-- An insertion sort.
abbrev insert_entry : Entry ℕ → List (Entry ℕ) → List (Entry ℕ)
insert_entry e [] = e ∷ []
insert_entry e (f ∷ fs) =
    if before f.cell_x f.cell_y e.cell_x e.cell_y then f ∷ insert_entry e fs else e ∷ f ∷ fs

abbrev sort_entries : List (Entry ℕ) → List (Entry ℕ)
sort_entries [] = []
sort_entries (e ∷ es) = insert_entry e (sort_entries es)

count_if-insert_entry :
    (p : Entry ℕ → Bool) (e : Entry ℕ) (es : List (Entry ℕ))
    → count_if p (insert_entry e es) ≡ count_if p (e ∷ es)
count_if-insert_entry p e [] = refl
count_if-insert_entry p e (f ∷ fs) = ground (arith, count_if-insert_entry p e fs)

insert_entry-All :
    (P : Entry ℕ → Type 0) (e : Entry ℕ) (es : List (Entry ℕ))
    → P e
    → All P es
    → All P (insert_entry e es)
insert_entry-All P e [] h hs = (h, tt)
insert_entry-All P e (f ∷ fs) h hs =
    elim (Bool-cases (before f.cell_x f.cell_y e.cell_x e.cell_y)) [
      | inl below ↦ rw below (hs.0, insert_entry-All P e fs h hs.1)
      | inr above ↦ rw above (h, hs)
    ]

insert_entry-Sorted : (e : Entry ℕ) (es : List (Entry ℕ)) → Sorted es → Sorted (insert_entry e es)
insert_entry-Sorted e [] h = (tt, tt)
insert_entry-Sorted e (f ∷ fs) h = elim (Bool-cases (before f.cell_x f.cell_y e.cell_x e.cell_y)) [
  | inl below ↦ rw below (
    insert_entry-All (λ g. before g.cell_x g.cell_y f.cell_x f.cell_y ≡ false) e fs (ground arith)
        h.0,
    insert_entry-Sorted e fs h.1,
  )
  | inr above ↦ rw above (
    (
      above,
      All-map _ (λ g. before g.cell_x g.cell_y e.cell_x e.cell_y ≡ false) (λ g k. ground arith) fs
          h.0,
    ),
    h,
  )
]

sort_entries-Sorted : (es : List (Entry ℕ)) → Sorted (sort_entries es)
sort_entries-Sorted [] = tt
sort_entries-Sorted (e ∷ es) = insert_entry-Sorted e (sort_entries es) (sort_entries-Sorted es)

count_if-sort_entries :
    (p : Entry ℕ → Bool) (es : List (Entry ℕ)) → count_if p (sort_entries es) ≡ count_if p es
count_if-sort_entries p [] = refl
count_if-sort_entries p (e ∷ es) =
    ground (arith, count_if-insert_entry p e (sort_entries es), count_if-sort_entries p es)

sort_entries-IsSort : IsSort sort_entries
sort_entries-IsSort = (sort_entries-Sorted, count_if-sort_entries)

-- A shape n in the cell (n / 2, 0).
abbrev placed : ℕ → Observation ℕ
placed n = record {
  seen = n;
  gx = pos (n / 2);
  gy = pos 0;
  aabb_gx_min = pos (n / 2);
  aabb_gx_max = pos (n / 2);
  aabb_gy_min = pos 0;
  aabb_gy_max = pos 0;
}

-- In the second cycle 5 continues 4, and 6, whose window holds nothing else, starts anew.
abbrev cycles : List (Action ℕ)
cycles =
    begin
    ∷ observe (placed 4)
    ∷ observe (placed 12)
    ∷ finish
    ∷ begin
    ∷ observe (placed 5)
    ∷ observe (placed 6)
    ∷ []

ids_of_cycles : (run too_far closeness sort_entries start cycles).claimed_ids ≡ 1 ∷ 3 ∷ []
unfolding run step begin_scan_cycle end_scan_cycle get_or_assign_id assign find_best scan_columns
    scan_column lower_bound consider window start suc_ℤ pred_ℤ
ids_of_cycles = refl

run-IsConsistent_example : IsConsistent (run too_far closeness sort_entries start cycles)
run-IsConsistent_example =
    run-IsConsistent too_far closeness sort_entries cycles sort_entries-IsSort (omega arith)

abbrev entry : ℕ → ℕ → Entry ℕ
entry n id = record { cell_x = pos (n / 2); cell_y = pos 0; shape = n; origin = n; id = id }

abbrev tracked : Tracker ℕ
tracked = record {
  next_id = 3;
  previous = entry 4 1 ∷ entry 6 2 ∷ [];
  current = [];
  claimed_ids = [];
}

get_or_assign_id-continued_example : get_or_assign_id too_far closeness tracked (placed 6) ≡ (
    let choice = first_best closeness 6 (candidates too_far closeness tracked (placed 6)) in
    (id_of tracked choice, continued tracked (placed 6) choice))
get_or_assign_id-continued_example =
    get_or_assign_id-continued too_far closeness tracked (placed 6) ((refl, tt), (tt, tt))
      (omega arith)
