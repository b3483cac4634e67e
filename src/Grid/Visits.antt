-- ===== src/Grid/Visits.antt =====
-- The loop over a line's cells runs to its end, and what the two users of it then compute.

use mathlib.Core.Option.{some-injective}
use rises.Base.{
  ℕ, zero, suc, ◌+◌, ◌≤◌, ◌<◌, ◌≡◌, refl, sym, ap, max, Bool, true, false, List, [], ◌∷◌, none,
  some, ltb, leb, length, get_elem?, any, Bool-cases, Option-cases, inl, inr, arith,
}
use rises.Base.Int.{ℤ, pos_part, neg_part, sub_ℕ, to_int, to_int_fits}
use rises.Grid.Lines.{
  Cursor, distance, at_end, first_cursor, advance, visited, indices, blocked_from,
  is_path_blocked_by,
}
use rises.Grid.Bresenham.{start-Balanced, end-Balanced}
use rises.Grid.Strides.{
  Wide, Tall, Stepped, short, advance-Wide, advance-Tall, under_way, arrived, eq_ℤ_refl,
}

module _ (gx1 gy1 gx2 gy2 : ℤ) where
  -- With fuel for k steps the loop ends after k steps, at the end of the line.
  abbrev pub Reaches : ℕ → Cursor → Type 0
  Reaches k c =
      (cells : List (ℤ × ℤ)) × (visited gx1 gy1 gx2 gy2 (suc k) c ≡ some cells)
      × (length cells ≡ suc k)
      × (get_elem? cells 0 ≡ some (c.x, c.y))
      × (get_elem? cells k ≡ some (gx2, gy2))

  visited-Reaches :
      (P : ℕ → Cursor → Type 0)
      → ((k : ℕ) (c : Cursor)
          → P (suc k) c
          → (at_end gx1 gy1 gx2 gy2 c ≡ false) × P k (advance gx1 gy1 gx2 gy2 c))
      → ((c : Cursor) → P zero c → (c.x ≡ gx2) × (c.y ≡ gy2))
      → (k : ℕ) (c : Cursor) → P k c
      → Reaches k c
  unfolding visited
  visited-Reaches P going done zero c h =
      let (ex, ey) = done c h in
      let over : at_end gx1 gy1 gx2 gy2 c ≡ true =
        rw (ex, ey) (ground (arith, eq_ℤ_refl gx2, eq_ℤ_refl gy2)) in
      ((c.x, c.y) ∷ [], rw over refl, refl, refl, rw (ex, ey) refl)
  visited-Reaches P going done (suc k) c h =
      let (more, next) = going k c h in
      let (cells, e, n, first, last) =
        visited-Reaches P going done k (advance gx1 gy1 gx2 gy2 c) next in
      ((c.x, c.y) ∷ cells, rw (more, e) refl, ap suc n, refl, last)

  Wide-Reaches :
      (k a b : ℕ) (c : Cursor)
      → distance gy1 gy2 ≤ distance gx1 gx2
      → distance gx1 gx2 < short
      → a + k ≡ distance gx1 gx2
      → Wide gx1 gy1 gx2 gy2 a b c
      → Reaches k c
  Wide-Reaches k a b c wide room left h =
      visited-Reaches
        (λ k c. (a : ℕ) × (b : ℕ) × (a + k ≡ distance gx1 gx2) × Wide gx1 gy1 gx2 gy2 a b c)
        (λ k c p.
          let (a, b, left, h) = p in
          let next = advance-Wide gx1 gy1 gx2 gy2 a b c wide room h in
          let far = under_way gx1 gx2 a c.x h.across (omega arith) in
          (ground arith, (a + 1, next.0, omega arith, next.1)))
        (λ c p.
          let (a, b, left, h) = p in
          let all : a ≡ distance gx1 gx2 = omega arith in
          (
            arrived gx1 gx2 a c.x h.across all,
            arrived gy1 gy2 b c.y h.down (end-Balanced (rw all at h.balanced)),
          ))
        k c (a, b, left, h)

  Tall-Reaches :
      (k a b : ℕ) (c : Cursor)
      → distance gx1 gx2 ≤ distance gy1 gy2
      → distance gy1 gy2 < short
      → a + k ≡ distance gy1 gy2
      → Tall gx1 gy1 gx2 gy2 a b c
      → Reaches k c
  Tall-Reaches k a b c tall room left h =
      visited-Reaches
        (λ k c. (a : ℕ) × (b : ℕ) × (a + k ≡ distance gy1 gy2) × Tall gx1 gy1 gx2 gy2 a b c)
        (λ k c p.
          let (a, b, left, h) = p in
          let next = advance-Tall gx1 gy1 gx2 gy2 a b c tall room h in
          let far = under_way gy1 gy2 a c.y h.down (omega arith) in
          (ground arith, (a + 1, next.0, omega arith, next.1)))
        (λ c p.
          let (a, b, left, h) = p in
          let all : a ≡ distance gy1 gy2 = omega arith in
          (
            arrived gx1 gx2 b c.x h.across (end-Balanced (rw all at h.balanced)),
            arrived gy1 gy2 a c.y h.down all,
          ))
        k c (a, b, left, h)

not_started : (from end : ℤ) → Stepped from end 0 from
not_started from end = ground arith

difference_parts :
    (m n : ℕ)
    → m < short
    → n < short
    → pos_part (to_int (sub_ℕ m n)) + n ≡ neg_part (to_int (sub_ℕ m n)) + m
difference_parts m n h k = rw (to_int_fits (sub_ℕ m n) (ground arith) (ground arith)) (ground arith)

module _ (gx1 gy1 gx2 gy2 : ℤ) where
  start-Wide :
      0 < distance gx1 gx2
      → distance gy1 gy2 ≤ distance gx1 gx2
      → distance gx1 gx2 < short
      → Wide gx1 gy1 gx2 gy2 0 0 (first_cursor gx1 gy1 gx2 gy2)
  unfolding first_cursor
  start-Wide long wide room = record {
    across = not_started gx1 gx2;
    down = not_started gy1 gy2;
    balanced = start-Balanced _ _ _ _ long wide (difference_parts _ _ room (omega arith));
  }

  start-Tall :
      0 < distance gy1 gy2
      → distance gx1 gx2 ≤ distance gy1 gy2
      → distance gy1 gy2 < short
      → Tall gx1 gy1 gx2 gy2 0 0 (first_cursor gx1 gy1 gx2 gy2)
  unfolding first_cursor
  start-Tall long tall room = record {
    down = not_started gy1 gy2;
    across = not_started gx1 gx2;
    balanced = start-Balanced _ _ _ _ long tall (sym (difference_parts _ _ (omega arith) room));
  }

  point-Reaches :
      distance gx1 gx2 ≡ 0
      → distance gy1 gy2 ≡ 0
      → Reaches gx1 gy1 gx2 gy2 0 (first_cursor gx1 gy1 gx2 gy2)
  unfolding first_cursor
  point-Reaches flat short =
      visited-Reaches gx1 gy1 gx2 gy2 (λ k c. (k ≡ 0) × (c.x ≡ gx2) × (c.y ≡ gy2))
        (λ k c p. absurd (let e = p.0 in omega arith)) (λ c p. (p.1, p.2)) 0
        (first_cursor gx1 gy1 gx2 gy2)
        (
          refl,
          arrived gx1 gx2 0 gx1 (not_started gx1 gx2) (sym flat),
          arrived gy1 gy2 0 gy1 (not_started gy1 gy2) (sym short),
        )

-- Where the ends are less than 2 ^ 29 columns and rows apart, the loop of `rasterizeLine` ends: with
-- fuel for one round more than the longer of the two distances it visits that many cells, from the
-- cell of the one end of the line to that of the other.
pub visited_total :
    (gx1 gy1 gx2 gy2 : ℤ)
    → distance gx1 gx2 < short
    → distance gy1 gy2 < short
    → Reaches gx1 gy1 gx2 gy2
        (max (distance gx1 gx2) (distance gy1 gy2))
        (first_cursor gx1 gy1 gx2 gy2)
visited_total gx1 gy1 gx2 gy2 few_across few_down =
    let dx = distance gx1 gx2 in
    let dy = distance gy1 gy2 in
    let c = first_cursor gx1 gy1 gx2 gy2 in
    elim (Bool-cases (leb dy dx)) [
      | inl wide ↦
          let shape : dy ≤ dx = ground arith in
          let longest : max dx dy ≡ dx = omega arith in
          rw longest (elim (Bool-cases (ltb 0 dx)) [
            | inl long ↦
                Wide-Reaches gx1 gy1 gx2 gy2 dx 0 0 c shape few_across (omega arith)
                  (start-Wide gx1 gy1 gx2 gy2 (ground arith) shape few_across)
            | inr flat ↦
                let none_across : dx ≡ 0 = ground arith in
                let none_down : dy ≡ 0 = omega arith in
                rw none_across (point-Reaches gx1 gy1 gx2 gy2 none_across none_down)
          ])
      | inr tall ↦
          let shape : dx < dy = ground arith in
          let longest : max dx dy ≡ dy = omega arith in
          rw longest (
            Tall-Reaches gx1 gy1 gx2 gy2 dy 0 0 c (omega arith) few_down (omega arith)
              (start-Tall gx1 gy1 gx2 gy2 (omega arith) (omega arith) few_down))
    ]

none-ne-some {ℓ} : {A : Type ℓ} {a : A} → ¬ (none ≡ some a)
none-ne-some h = cc

module _ (width height : ℕ) (occupied : ℕ → Bool) (gx1 gy1 gx2 gy2 : ℤ) where
  blocked_from-visited :
      (fuel : ℕ) (c : Cursor) (cells : List (ℤ × ℤ))
      → visited gx1 gy1 gx2 gy2 fuel c ≡ some cells
      → blocked_from width height occupied gx1 gy1 gx2 gy2 fuel c
        ≡ some (any occupied (indices width height cells))
  unfolding visited blocked_from
  blocked_from-visited zero c cells e = cc
  blocked_from-visited (suc fuel) c cells e = elim (Bool-cases (at_end gx1 gy1 gx2 gy2 c)) [
    | inl over ↦
        let one : some ((c.x, c.y) ∷ []) ≡ some cells = rw over at e in
        rw (over, sym (some-injective _ _ one)) (ground arith)
    | inr more ↦ elim (Option-cases (visited gx1 gy1 gx2 gy2 fuel (advance gx1 gy1 gx2 gy2 c))) [
      | inl lost ↦ absurd (none-ne-some (rw (more, lost) at e))
      | inr (rest, found) ↦
          let cons : some ((c.x, c.y) ∷ rest) ≡ some cells = rw (more, found) at e in
          let later = blocked_from-visited fuel (advance gx1 gy1 gx2 gy2 c) rest found in
          rw (more, later, sym (some-injective _ _ cons)) (ground arith)
    ]
  ]

pub is_path_blocked_by-visited :
    (width height : ℕ) (occupied : ℕ → Bool) (gx1 gy1 gx2 gy2 : ℤ) (fuel : ℕ) (cells : List (ℤ × ℤ))
    → visited gx1 gy1 gx2 gy2 fuel (first_cursor gx1 gy1 gx2 gy2) ≡ some cells
    → is_path_blocked_by width height occupied fuel (some (gx1, gy1)) (some (gx2, gy2))
      ≡ some (any occupied (indices width height cells))
unfolding is_path_blocked_by
is_path_blocked_by-visited width height occupied gx1 gy1 gx2 gy2 fuel cells e =
    blocked_from-visited width height occupied gx1 gy1 gx2 gy2 fuel (first_cursor gx1 gy1 gx2 gy2)
      cells e
