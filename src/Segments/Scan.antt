-- ===== src/Segments/Scan.antt =====
-- The two loops of `getOrAssignId` consider the entries inside the window, in order.
use rises.Base.{
  ◌≡◌, refl, sym, ℕ, zero, suc, ◌+◌, Bool, true, false, not, ◌&&◌, List, [], ◌∷◌, ◌++◌,
  if◌then◌else◌, ltb, All, All-map, keep, Bool-cases, inl, inr, arith,
}
use rises.Base.Int.{
  ℤ, pos_part, neg_part, ltb_ℤ, eq_ℤ, leb_ℤ, suc_ℤ, pred_ℤ, suc_ℤ_parts, pred_ℤ_parts,
}
use rises.Segments.{Entry, Window, Best, before, lower_bound, consider, scan_column, scan_columns}

-- Sorted by `EntryCmp`.
abbrev pub Sorted : {Shape : Type 0} → List (Entry Shape) → Type 0
Sorted [] = Unit
Sorted (e ∷ es) = All (λ f. before f.cell_x f.cell_y e.cell_x e.cell_y ≡ false) es × Sorted es

abbrev in_rows : {Shape : Type 0} → Window → Entry Shape → Bool
in_rows w e = not (ltb_ℤ e.cell_y w.search_row_min) && not (ltb_ℤ w.search_row_max e.cell_y)

abbrev in_column : {Shape : Type 0} → Window → ℤ → Entry Shape → Bool
in_column w col e = eq_ℤ e.cell_x col && in_rows w e

-- The n columns from `lo` on.
abbrev pub in_columns : {Shape : Type 0} → Window → ℤ → ℕ → Entry Shape → Bool
in_columns w lo n e =
    (leb_ℤ lo e.cell_x
      && ltb (pos_part e.cell_x + neg_part lo) (pos_part lo + neg_part e.cell_x + n))
    && in_rows w e

keep_none {ℓ} :
    {A : Type ℓ} (p : A → Bool) (xs : List A) → All (λ a. p a ≡ false) xs → keep p xs ≡ []
keep_none p [] h = refl
keep_none p (x ∷ xs) h = ground (arith, keep_none p xs h.1)

module _ {Shape : Type 0} where
  -- No entry before the first is in a column that the first has passed.
  later_columns :
      (w : Window) (col : ℤ) (e : Entry Shape) (es : List (Entry Shape))
      → ltb_ℤ col e.cell_x ≡ true
      → All (λ f. before f.cell_x f.cell_y e.cell_x e.cell_y ≡ false) es
      → keep (in_column w col) es ≡ []
  later_columns w col e es past sorted =
      keep_none _ es (All-map _ (λ f. in_column w col f ≡ false) (λ f h. ground arith) es sorted)

  later_rows :
      (w : Window) (col : ℤ) (e : Entry Shape) (es : List (Entry Shape))
      → eq_ℤ e.cell_x col ≡ true
      → ltb_ℤ w.search_row_max e.cell_y ≡ true
      → All (λ f. before f.cell_x f.cell_y e.cell_x e.cell_y ≡ false) es
      → keep (in_column w col) es ≡ []
  later_rows w col e es here past sorted =
      keep_none _ es (All-map _ (λ f. in_column w col f ≡ false) (λ f h. ground arith) es sorted)

  -- What `lower_bound` passes over is outside the window.
  keep-lower_bound :
      (w : Window) (col : ℤ) (es : List (Entry Shape))
      → keep (in_column w col) (lower_bound col (pred_ℤ w.search_row_min) es)
        ≡ keep (in_column w col) es
  unfolding lower_bound
  keep-lower_bound w col [] = refl
  keep-lower_bound w col (e ∷ es) =
      ground (arith, keep-lower_bound w col es, pred_ℤ_parts w.search_row_min)

  lower_bound-Sorted : (x y : ℤ) (es : List (Entry Shape)) → Sorted es → Sorted (lower_bound x y es)
  unfolding lower_bound
  lower_bound-Sorted x y [] h = tt
  lower_bound-Sorted x y (e ∷ es) h = ground (arith, lower_bound-Sorted x y es h.1)

  -- The entries from a lower bound on are not before it.
  lower_bound-All :
      (x y : ℤ) (es : List (Entry Shape))
      → Sorted es
      → All (λ e. before e.cell_x e.cell_y x y ≡ false) (lower_bound x y es)
  unfolding lower_bound
  lower_bound-All x y [] h = tt
  lower_bound-All x y (e ∷ es) h = elim (Bool-cases (before e.cell_x e.cell_y x y)) [
    | inl below ↦ rw below (lower_bound-All x y es h.1)
    | inr here ↦
        rw here
          (here, All-map _ (λ f. before f.cell_x f.cell_y x y ≡ false) (λ f g. ground arith) es h.0)
  ]

  -- In sorted entries a column and those after it are next to each other.
  keep-columns :
      (w : Window) (lo : ℤ) (n : ℕ) (es : List (Entry Shape))
      → Sorted es
      → keep (in_column w lo) es ++ keep (in_columns w (suc_ℤ lo) n) es
        ≡ keep (in_columns w lo (suc n)) es
  keep-columns w lo n [] h = refl
  keep-columns w lo n (e ∷ es) h = elim (Bool-cases (ltb_ℤ lo e.cell_x)) [
    | inl past ↦
        let alone = later_columns w lo e es past h.0 in
        ground (arith, keep-columns w lo n es h.1, suc_ℤ_parts lo)
    | inr near ↦ ground (arith, keep-columns w lo n es h.1, suc_ℤ_parts lo)
  ]

  keep-no_columns :
      (w : Window) (lo : ℤ) (es : List (Entry Shape)) → keep (in_columns w lo zero) es ≡ []
  keep-no_columns w lo [] = refl
  keep-no_columns w lo (e ∷ es) = ground (arith, keep-no_columns w lo es)

module _ {Shape : Type 0} (drifted : Shape → Shape → Bool) (score : Shape → Shape → ℕ)
    (claimed_ids : List ℕ) (seen : Shape) where
  abbrev pub consider_all : Best Shape → List (Entry Shape) → Best Shape
  consider_all best [] = best
  consider_all best (e ∷ es) = consider_all (consider drifted score claimed_ids seen best e) es

  consider_all-append :
      (best : Best Shape) (es fs : List (Entry Shape))
      → consider_all best (es ++ fs) ≡ consider_all (consider_all best es) fs
  consider_all-append best [] fs = refl
  consider_all-append best (e ∷ es) fs =
      consider_all-append (consider drifted score claimed_ids seen best e) es fs

  scan_column-consider_all :
      (w : Window) (col : ℤ) (es : List (Entry Shape)) (best : Best Shape)
      → Sorted es
      → All (λ e. before e.cell_x e.cell_y col (pred_ℤ w.search_row_min) ≡ false) es
      → scan_column drifted score claimed_ids seen w col es best
        ≡ consider_all best (keep (in_column w col) es)
  unfolding scan_column
  scan_column-consider_all w col [] best h above = refl
  scan_column-consider_all w col (e ∷ es) best h above = elim (Bool-cases (eq_ℤ e.cell_x col)) [
    | inl here ↦ elim (Bool-cases (ltb_ℤ w.search_row_max e.cell_y)) [
      | inl past ↦ let none_left = later_rows w col e es here past h.0 in ground arith
      | inr within ↦
          let best' : Best Shape =
            if ltb_ℤ e.cell_y w.search_row_min
            then best
            else consider drifted score claimed_ids seen best e in
          let later = scan_column-consider_all w col es best' h.1 above.1 in ground arith
    ]
    | inr beyond ↦
        let past : ltb_ℤ col e.cell_x ≡ true = ground arith in
        let none_left = later_columns w col e es past h.0 in ground arith
  ]

  -- The loops over sorted entries consider those of the columns and rows of the window, in order.
  pub scan_columns-consider_all :
      (w : Window) (es : List (Entry Shape)) (n : ℕ) (col : ℤ) (best : Best Shape)
      → Sorted es
      → scan_columns drifted score claimed_ids seen w es n col best
        ≡ consider_all best (keep (in_columns w col n) es)
  unfolding scan_columns
  scan_columns-consider_all w es zero col best h = rw (keep-no_columns w col es) refl
  scan_columns-consider_all w es (suc n) col best h =
      let found = lower_bound col (pred_ℤ w.search_row_min) es in
      let one =
        scan_column-consider_all w col found best (lower_bound-Sorted col _ es h)
          (lower_bound-All col _ es h) in
      let best' = consider_all best (keep (in_column w col) es) in
      rw
        (
          one,
          keep-lower_bound w col es,
          scan_columns-consider_all w es n (suc_ℤ col) best' h,
          sym (keep-columns w col n es h),
          consider_all-append best (keep (in_column w col) es)
              (keep (in_columns w (suc_ℤ col) n) es),
        )
        refl
