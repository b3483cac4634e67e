-- ===== src/Safety/Overlap.antt =====
-- `isPathOverlappingPrediction` against its description.
use rises.Base.{
  ℕ, ◌+◌, ◌*◌, ◌^◌, ◌<◌, ◌≡◌, refl, ◌↔◌, ◌⊎◌, inl, inr, Bool, true, false, List, [], ◌∷◌, some,
  arith, length, get_elem?, get_elem?_total,
}
use native.Mathlib.Decide.{dec_lt}
use rises.Base.Int.{ℤ, pos, negsuc, leb_ℤ, to_int, to_int_fits}
use rises.Safety.{OccupancyGrid, cell_hot, poses_overlap}

-- A grid as `OccupancyGrid` describes it, of fewer than 2 ^ 31 cells, columns and rows, so that an
-- index is an `int`.
pub record IsGrid (grid : OccupancyGrid) : Type 0 where
  pub filled : length grid.cells ≡ grid.height * grid.width
  pub narrow : grid.width < 2 ^ 31
  pub low : grid.height < 2 ^ 31
  pub few : grid.height * grid.width < 2 ^ 31

-- The cell lies on the grid, and its value reaches the threshold.
abbrev pub Touches : OccupancyGrid → ℤ → ℤ × ℤ → Type 0
Touches grid threshold (pos c, pos r) =
    (c < grid.width)
    × (r < grid.height)
    × ((v : ℤ) × (get_elem? grid.cells (r * grid.width + c) ≡ some v) × (leb_ℤ threshold v ≡ true))
Touches grid threshold (pos c, negsuc r) = ⊥
Touches grid threshold (negsuc c, r) = ⊥

abbrev pub Somewhere {ℓ} : {A : Type ℓ} → (A → Type 0) → List A → Type 0
Somewhere P [] = ⊥
Somewhere P (x ∷ xs) = P x ⊎ Somewhere P xs

index_in_range : (r c w h : ℕ) → r < h → c < w → r * w + c < h * w
index_in_range r c w h p q = grind arith

cell_hot-Touches :
    (grid : OccupancyGrid) (threshold : ℤ) (cell : ℤ × ℤ)
    → IsGrid grid
    → (b : Bool) × (cell_hot grid threshold cell ≡ some b)
      × ((b ≡ true) ↔ Touches grid threshold cell)
unfolding cell_hot
cell_hot-Touches grid threshold (pos c, pos r) v = elim (dec_lt c grid.width) [
  | no wide ↦ (false, ground (arith, v.narrow, v.low), (λ h. cc, λ t. absurd (wide t.0)))
  | yes inside ↦ elim (dec_lt r grid.height) [
    | no high ↦ (false, ground (arith, v.narrow, v.low), (λ h. cc, λ t. absurd (high t.1)))
    | yes under ↦
        let room : r * grid.width + c < length grid.cells =
          omega (arith, v.filled, index_in_range r c grid.width grid.height under inside) in
        let (value, read) = get_elem?_total grid.cells (r * grid.width + c) room in
        let index : to_int (pos (r * grid.width + c)) ≡ pos (r * grid.width + c) =
          to_int_fits _ (omega (arith, v.filled, v.few)) (omega arith) in
        (
          leb_ℤ threshold value,
          rw index (ground (arith, v.narrow, v.low)),
          (λ h. (inside, under, (value, read, h)), λ t. ground arith),
        )
  ]
]
cell_hot-Touches grid threshold (pos c, negsuc r) v =
    (false, ground arith, (λ h. cc, λ h. absurd h))
cell_hot-Touches grid threshold (negsuc c, pos r) v =
    (false, ground arith, (λ h. cc, λ h. absurd h))
cell_hot-Touches grid threshold (negsuc c, negsuc r) v =
    (false, ground arith, (λ h. cc, λ h. absurd h))

-- On a grid of fewer than 2 ^ 31 cells, columns and rows, as many as its data, no waypoint makes the
-- test read outside the data, and the answer is yes if and only if some waypoint lies on a cell whose
-- value reaches the threshold. A waypoint off the grid does not count.
pub poses_overlap-Touches :
    {Pose : Type 0} (cell_of : OccupancyGrid → Pose → ℤ × ℤ) (grid : OccupancyGrid) (threshold : ℤ)
    (poses : List Pose)
    → IsGrid grid
    → (b : Bool) × (poses_overlap cell_of grid threshold poses ≡ some b)
      × ((b ≡ true) ↔ Somewhere (λ pose. Touches grid threshold (cell_of grid pose)) poses)
unfolding poses_overlap
poses_overlap-Touches cell_of grid threshold [] v = (false, refl, (λ h. cc, λ h. absurd h))
poses_overlap-Touches cell_of grid threshold (pose ∷ rest) v =
    combine (cell_hot-Touches grid threshold (cell_of grid pose) v)
      (poses_overlap-Touches cell_of grid threshold rest v)
  where
    Goal : Type 0
    Goal =
        (b : Bool) × (poses_overlap cell_of grid threshold (pose ∷ rest) ≡ some b)
        × ((b ≡ true)
            ↔ Somewhere (λ pose. Touches grid threshold (cell_of grid pose)) (pose ∷ rest))

    combine :
        ((b : Bool) × (cell_hot grid threshold (cell_of grid pose) ≡ some b)
          × ((b ≡ true) ↔ Touches grid threshold (cell_of grid pose)))
        → ((b : Bool) × (poses_overlap cell_of grid threshold rest ≡ some b)
            × ((b ≡ true) ↔ Somewhere (λ pose. Touches grid threshold (cell_of grid pose)) rest))
        → Goal
    combine (true, e, iff) (b, e', iff') =
        (true, rw (e, poses_overlap), (λ h. inl (iff.0 refl), λ t. refl))
    combine (false, e, iff) (b, e', iff') = (
      b,
      rw (e, poses_overlap) e',
      (λ h. inr (iff'.0 h), λ t. elim t [ inl x ↦ cc (iff.1 x) | inr y ↦ iff'.1 y ]),
    )
