-- ===== src/Spatial/Index/Reach.antt =====
-- The largest half-diagonal, by which a query widens its search.
use rises.Base.{
  ℕ, zero, suc, ◌-◌, ◌≡◌, inl, inr, true, false, ◌==◌, List, [], ◌∷◌, some, length, get_elem?, set,
  take, All, All-append, All-map, arith, Bool-cases, Option-cases,
}
use rises.Base.Int.{ℤ}
use rises.Base.Dict.{int_keys, lookup}
use rises.Spatial.Shapes.{Shapes, Box}
use rises.Spatial.Index.{
  Slot, NanoflannAdapter, slot_of, insert, max_f, max_element, max_of, swap_out, is_largest, remove,
}

module _ {ℓ κ} {A : Type ℓ} (P : A → Type κ) where
  All-take : (n : ℕ) (xs : List A) → All P xs → All P (take n xs)
  All-take zero xs h = tt
  All-take (suc n) [] h = tt
  All-take (suc n) (x ∷ xs) h = (h.0, All-take n xs h.1)

  All-set : (xs : List A) (i : ℕ) (v : A) → All P xs → P v → All P (set xs i v)
  All-set [] i v h p = tt
  All-set (x ∷ xs) zero v h p = (p, h.1)
  All-set (x ∷ xs) (suc i) v h p = (h.0, All-set xs i v h.1 p)

  All-get_elem? : (xs : List A) (i : ℕ) {a : A} → All P xs → get_elem? xs i ≡ some a → P a
  All-get_elem? [] i h e = cc
  All-get_elem? (x ∷ xs) zero h e = ground arith
  All-get_elem? (x ∷ xs) (suc i) h e = All-get_elem? xs i h.1 e

module _ (S : Shapes) where
  open S use {Float, less, leq}

  -- No point has a half-diagonal above a bound.
  abbrev pub IsBelow : Float → List (Slot Float) → Type 0
  IsBelow bound points = All (λ s. less bound s.half_diag ≡ false) points

  abbrev pub IsCovered : NanoflannAdapter Float → Type 0
  IsCovered t = IsBelow t.max_half_diag t.points

  swap_out-All :
      (P : Slot Float → Type 0) (idx last : ℕ) (points : List (Slot Float))
      → All P points
      → All P (swap_out S idx last points)
  unfolding swap_out
  swap_out-All P idx last points h = elim (Option-cases (get_elem? points last)) [
    | inl e ↦ rw (swap_out, e) h
    | inr (moved, e) ↦ elim (Bool-cases (idx == last)) [
      | inl m ↦ rw (swap_out, e, m) (All-take P last points h)
      | inr m ↦
          rw (swap_out, e, m)
            (All-take P last (set points idx moved)
              (All-set P points idx moved h (All-get_elem? P points last h e)))
    ]
  ]

  module _ (asym : (a b : Float) → less a b ≡ true → less b a ≡ false)
      (chain : (a b c : Float) → less a b ≡ false → less b c ≡ false → less a c ≡ false) where
    max_f_left : (a b : Float) → less (max_f S a b) a ≡ false
    max_f_left a b = elim (Bool-cases (less a b)) [
      | inl e ↦ rw e (asym a b e)
      | inr e ↦ elim (Bool-cases (less a a)) [
        | inl l ↦ absurd (ground (arith, asym a a l))
        | inr l ↦ rw e l
      ]
    ]

    max_f_right : (a b : Float) → less (max_f S a b) b ≡ false
    max_f_right a b = elim (Bool-cases (less a b)) [
      | inl e ↦ elim (Bool-cases (less b b)) [
        | inl l ↦ absurd (ground (arith, asym b b l))
        | inr l ↦ rw e l
      ]
      | inr e ↦ rw e e
    ]

    max_element-IsBelow :
        (best : Float) (points : List (Slot Float))
        → (less (max_element S best points) best ≡ false)
          × IsBelow (max_element S best points) points
    unfolding max_element
    max_element-IsBelow best [] = (ground (arith, max_f_left best best), tt)
    max_element-IsBelow best (s ∷ rest) =
        let next = max_f S best s.half_diag in
        let (top, below) = max_element-IsBelow next rest in
        (
          chain _ next best top (max_f_left best s.half_diag),
          (chain _ next s.half_diag top (max_f_right best s.half_diag), below),
        )

    max_of-IsBelow : (points : List (Slot Float)) → IsBelow (max_of S points) points
    unfolding max_of
    max_of-IsBelow [] = tt
    max_of-IsBelow (s ∷ rest) = max_element-IsBelow s.half_diag rest

    -- Where no half-diagonal is NaN, an insertion keeps the largest half-diagonal an upper bound.
    pub insert-IsCovered :
        (id : ℤ) (bbox : Box S) (t : NanoflannAdapter Float)
        → IsCovered t
        → IsCovered (insert S id bbox t)
    unfolding insert
    insert-IsCovered id bbox t h =
        let slot = slot_of S id bbox in
        let next = max_f S t.max_half_diag slot.half_diag in
        All-append (λ s. less next s.half_diag ≡ false) t.points (slot ∷ [])
          (All-map (λ s. less t.max_half_diag s.half_diag ≡ false)
            (λ s. less next s.half_diag ≡ false)
            (λ s below.
              chain next t.max_half_diag s.half_diag (max_f_left t.max_half_diag slot.half_diag)
                below)
            t.points h)
          (max_f_right t.max_half_diag slot.half_diag, tt)

    -- So does a removal, which computes it anew when the largest point goes.
    pub remove-IsCovered :
        (id : ℤ) (t : NanoflannAdapter Float) → IsCovered t → IsCovered (remove S id t)
    unfolding remove
    remove-IsCovered id t h = elim (Option-cases (lookup id t.id_to_index)) [
      | inl e ↦ rw (remove, e) h
      | inr (idx, e) ↦
          let rest = swap_out S idx (length t.points - 1) t.points in
          elim (Bool-cases (is_largest S idx t)) [
            | inl m ↦ rw (remove, e, m) (max_of-IsBelow rest)
            | inr m ↦
                rw (remove, e, m)
                  (swap_out-All (λ s. less t.max_half_diag s.half_diag ≡ false) idx
                    (length t.points - 1) t.points h)
          ]
    ]
