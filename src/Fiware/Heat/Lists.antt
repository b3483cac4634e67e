-- ===== src/Fiware/Heat/Lists.antt =====
-- What one more cell changes: the count of the positive ones, the greatest value, the hot cells listed.
use rises.Base.{
  ℕ, zero, suc, ◌≤◌, ◌≡◌, refl, sym, ◌∙◌, ap, inl, inr, Bool, ◌&&◌, List, [], ◌∷◌, ◌++◌, some, true,
  if◌then◌else◌, length, get_elem?, take, count_if, keep, map, ◌<◌, ltb, arith, Bool-cases,
}
use rises.Base.Int.{ℤ, pos, leb_ℤ, max_ℤ, suc_ℤ, suc_ℤ_parts, to_int, to_int_fits}
use rises.Fiware.Heat.{HotCell, max_hot_cells, is_positive, is_hot}

take-snoc_count :
    (p : ℤ → Bool) (xs : List ℤ) (n : ℕ) (x : ℤ)
    → get_elem? xs n ≡ some x
    → count_if p (take (suc n) xs)
      ≡ (if p x then suc (count_if p (take n xs)) else count_if p (take n xs))
take-snoc_count p [] n x h = cc
take-snoc_count p (y ∷ xs) zero x h = ground arith
take-snoc_count p (y ∷ xs) (suc n) x h = ground (arith, take-snoc_count p xs n x h)

-- The greatest of some values and of one more.
abbrev pub greatest : ℤ → List ℤ → ℤ
greatest top [] = top
greatest top (x ∷ xs) = greatest (max_ℤ top x) xs

take-snoc_greatest :
    (top : ℤ) (xs : List ℤ) (n : ℕ) (x : ℤ)
    → get_elem? xs n ≡ some x
    → greatest top (take (suc n) xs) ≡ max_ℤ (greatest top (take n xs)) x
take-snoc_greatest top [] n x h = cc
take-snoc_greatest top (y ∷ xs) zero x h = ground arith
take-snoc_greatest top (y ∷ xs) (suc n) x h = take-snoc_greatest (max_ℤ top y) xs n x h

take-snoc_keep :
    (p : ℤ → Bool) (xs : List ℤ) (n : ℕ) (x : ℤ)
    → get_elem? xs n ≡ some x
    → keep p (take (suc n) xs) ≡ (if p x then keep p (take n xs) ++ x ∷ [] else keep p (take n xs))
take-snoc_keep p [] n x h = cc
take-snoc_keep p (y ∷ xs) zero x h = ground arith
take-snoc_keep p (y ∷ xs) (suc n) x h = ground (arith, take-snoc_keep p xs n x h)

take-nil : (k : ℕ) → take {A = ℤ} k [] ≡ []
take-nil zero = refl
take-nil (suc k) = refl

-- One more entry of a list that is cut off.
take-snoc_capped :
    (k : ℕ) (xs : List ℤ) (x : ℤ)
    → take k (xs ++ x ∷ [])
      ≡ (if ltb (length (take k xs)) k then take k xs ++ x ∷ [] else take k xs)
take-snoc_capped zero xs x = refl
take-snoc_capped (suc k) [] x = rw (take-nil k) (ground arith)
take-snoc_capped (suc k) (y ∷ xs) x = ground (arith, take-snoc_capped k xs x)

count_if-take : (p : ℤ → Bool) (n : ℕ) (xs : List ℤ) → count_if p (take n xs) ≤ n
count_if-take p zero xs = omega arith
count_if-take p (suc n) [] = omega arith
count_if-take p (suc n) (x ∷ xs) = ground (arith, count_if-take p n xs)

count_up : (k : ℕ) → suc k < 2147483648 → to_int (suc_ℤ (pos k)) ≡ pos (suc k)
count_up k h = ap to_int (next k) ∙ to_int_fits (pos (suc k)) h (omega arith)
  where
    next : (k : ℕ) → suc_ℤ (pos k) ≡ pos (suc k)
    next k = grind (arith, suc_ℤ_parts (pos k))

pub seen_count :
    (xs : List ℤ) (n : ℕ) (cell total : ℤ)
    → get_elem? xs n ≡ some cell
    → n < 2147483647
    → total ≡ pos (count_if is_positive (take n xs))
    → (if is_positive cell then to_int (suc_ℤ total) else total)
      ≡ pos (count_if is_positive (take (suc n) xs))
seen_count xs n cell total e small h =
    let bound = count_if-take is_positive n xs in
    rw (take-snoc_count is_positive xs n cell e) (elim (Bool-cases (is_positive cell)) [
      | inl up ↦ rw up (ap (λ t. to_int (suc_ℤ t)) h ∙ count_up _ (omega arith))
      | inr down ↦ rw down h
    ])

greatest-above : (top : ℤ) (xs : List ℤ) → leb_ℤ top (greatest top xs) ≡ true
greatest-above top [] = ground arith
greatest-above top (x ∷ xs) = ground (arith, greatest-above (max_ℤ top x) xs)

pub seen_max :
    (xs : List ℤ) (n : ℕ) (cell top : ℤ)
    → get_elem? xs n ≡ some cell
    → top ≡ greatest (pos 0) (take n xs)
    → (if is_positive cell then max_ℤ top cell else top) ≡ greatest (pos 0) (take (suc n) xs)
seen_max xs n cell top e h =
    let above = greatest-above (pos 0) (take n xs) in
    rw (take-snoc_greatest (pos 0) xs n cell e, h) (ground arith)

map_value-snoc :
    (cells : List HotCell) (c : HotCell)
    → map (λ h. h.value) (cells ++ c ∷ []) ≡ map (λ h. h.value) cells ++ c.value ∷ []
map_value-snoc [] c = refl
map_value-snoc (h ∷ cells) c = ap (λ t. h.value ∷ t) (map_value-snoc cells c)

length-map_value : (cells : List HotCell) → length (map (λ h. h.value) cells) ≡ length cells
length-map_value [] = refl
length-map_value (h ∷ cells) = ap suc (length-map_value cells)

pub seen_hot :
    (xs : List ℤ) (n : ℕ) (c : HotCell) (cells : List HotCell)
    → get_elem? xs n ≡ some c.value
    → map (λ h. h.value) cells ≡ take max_hot_cells (keep is_hot (take n xs))
    → map
        (λ h. h.value)
        (if is_hot c.value && ltb (length cells) max_hot_cells then cells ++ c ∷ [] else cells)
      ≡ take max_hot_cells (keep is_hot (take (suc n) xs))
seen_hot xs n c cells e h =
    let before = keep is_hot (take n xs) in
    let size : length cells ≡ length (take max_hot_cells before) =
      sym (length-map_value cells) ∙ ap length h in
    rw (take-snoc_keep is_hot xs n c.value e, size)
      (elim (Bool-cases (is_hot c.value)) [
        | inr cold ↦ rw cold h
        | inl hot ↦ elim (Bool-cases (ltb (length (take max_hot_cells before)) max_hot_cells)) [
          | inl room ↦
              rw (hot, take-snoc_capped max_hot_cells before c.value, room)
                (map_value-snoc cells c ∙ ap (λ t. t ++ c.value ∷ []) h)
          | inr full ↦ rw (hot, take-snoc_capped max_hot_cells before c.value, full) h
        ]
      ])
