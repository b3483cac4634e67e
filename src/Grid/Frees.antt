-- ===== src/Grid/Frees.antt =====
-- The vectors after a cell of an obstacle is released.
use rises.Base.{
  ℕ, ◌+◌, ◌-◌, ◌<◌, ◌≡◌, refl, sym, ap, ◌∙◌, Bool, true, false, ◌&&◌, List, if◌then◌else◌, ltb,
  ◌==◌, length, set, length-set, arith,
}
use rises.Grid.{
  ObstacleLayer, fixed, static, dynamic, GridMapData, at, layer_grid, ref_count, release_cell,
  is_free, clear_cell,
}
use rises.Grid.Cells.{flag, Counts, at-set, LayerShows, Shows, dip, at_layer}

-- A property of both arms of a conditional.
pick :
    {x y : GridMapData} (P : GridMapData → Type 0) (b : Bool)
    → (b ≡ true → P x)
    → (b ≡ false → P y)
    → P (if b then x else y)
pick P true f g = f refl
pick P false f g = g refl

abbrev Layers : ℕ → Counts → GridMapData → GridMapData → Type 0
Layers size n d e =
    ((l : ObstacleLayer) → LayerShows size (layer_grid l e) (ref_count l e) (n l))
    × (e.grid ≡ d.grid)

lowered :
    {size : ℕ} {grid refs : List ℕ} {n : ℕ → ℕ} (idx i : ℕ)
    → idx < size
    → LayerShows size grid refs n
    → at (set refs idx (at refs idx - 1)) i ≡ dip idx n i
lowered {refs = refs} idx i small h =
    at-set refs idx i (at refs idx - 1) (omega (arith, h.refs_size))
    ∙ ground (arith, h.counted i, h.counted idx)

-- The count falls to zero, and the cell is cleared.
emptied_layer :
    {size : ℕ} {grid refs : List ℕ} {n : ℕ → ℕ} (idx : ℕ)
    → idx < size
    → LayerShows size grid refs n
    → (at (set refs idx (at refs idx - 1)) idx == 0) ≡ true
    → LayerShows size (set grid idx 0) (set refs idx (at refs idx - 1)) (dip idx n)
emptied_layer {grid = grid} {refs = refs} idx small h e = record {
  grid_size = length-set grid idx 0 ∙ h.grid_size;
  refs_size = length-set refs idx _ ∙ h.refs_size;
  counted = λ i. lowered idx i small h;
  flagged = λ i.
      at-set grid idx i 0 (omega (arith, h.grid_size))
      ∙ ground (arith, h.flagged i, lowered idx idx small h);
}

-- The cell stays occupied.
thinned_layer :
    {size : ℕ} {grid refs : List ℕ} {n : ℕ → ℕ} (idx : ℕ)
    → idx < size
    → LayerShows size grid refs n
    → (at (set refs idx (at refs idx - 1)) idx == 0) ≡ false
    → LayerShows size grid (set refs idx (at refs idx - 1)) (dip idx n)
thinned_layer {grid = grid} {refs = refs} idx small h e = record {
  grid_size = h.grid_size;
  refs_size = length-set refs idx _ ∙ h.refs_size;
  counted = λ i. lowered idx i small h;
  flagged = λ i. h.flagged i ∙ ground (arith, lowered idx idx small h);
}

release_cell-Layers :
    {size : ℕ} (layer : ObstacleLayer) (idx : ℕ) (d : GridMapData) {n : Counts}
    → idx < size
    → 0 < n layer idx
    → Shows size d n
    → Layers size (at_layer layer (dip idx) n) d (release_cell layer idx d)
unfolding release_cell
release_cell-Layers {size} fixed idx d {n} small some_left h =
    let m = at_layer fixed (dip idx) n in
    let there : ltb 0 (at d.ref_fixed idx) ≡ true = ground (arith, (h.layers fixed).counted idx) in
    rw (there, release_cell)
      (pick (Layers size m d) (at (set d.ref_fixed idx (at d.ref_fixed idx - 1)) idx == 0)
        (λ e. (
          elim [
            | fixed ↦ emptied_layer idx small (h.layers fixed) e
            | static ↦ h.layers static
            | dynamic ↦ h.layers dynamic
          ],
          refl,
        ))
        (λ e. (
          elim [
            | fixed ↦ thinned_layer idx small (h.layers fixed) e
            | static ↦ h.layers static
            | dynamic ↦ h.layers dynamic
          ],
          refl,
        )))
release_cell-Layers {size} static idx d {n} small some_left h =
    let m = at_layer static (dip idx) n in
    let there : ltb 0 (at d.ref_static idx) ≡ true =
      ground (arith, (h.layers static).counted idx) in
    rw (there, release_cell)
      (pick (Layers size m d) (at (set d.ref_static idx (at d.ref_static idx - 1)) idx == 0)
        (λ e. (
          elim [
            | fixed ↦ h.layers fixed
            | static ↦ emptied_layer idx small (h.layers static) e
            | dynamic ↦ h.layers dynamic
          ],
          refl,
        ))
        (λ e. (
          elim [
            | fixed ↦ h.layers fixed
            | static ↦ thinned_layer idx small (h.layers static) e
            | dynamic ↦ h.layers dynamic
          ],
          refl,
        )))
release_cell-Layers {size} dynamic idx d {n} small some_left h =
    let m = at_layer dynamic (dip idx) n in
    let there : ltb 0 (at d.ref_dynamic idx) ≡ true =
      ground (arith, (h.layers dynamic).counted idx) in
    rw (there, release_cell)
      (pick (Layers size m d) (at (set d.ref_dynamic idx (at d.ref_dynamic idx - 1)) idx == 0)
        (λ e. (
          elim [
            | fixed ↦ h.layers fixed
            | static ↦ h.layers static
            | dynamic ↦ emptied_layer idx small (h.layers dynamic) e
          ],
          refl,
        ))
        (λ e. (
          elim [
            | fixed ↦ h.layers fixed
            | static ↦ h.layers static
            | dynamic ↦ thinned_layer idx small (h.layers dynamic) e
          ],
          refl,
        )))

-- Away from the cell the sums stay, and at the cell they fall to zero together.
sum_free :
    (layer : ObstacleLayer) (idx i : ℕ) (n : Counts)
    → let m = at_layer layer (dip idx) n in
      (((m fixed idx == 0) && ((m static idx == 0) && (m dynamic idx == 0))) ≡ true)
      → flag (m fixed i + m static i + m dynamic i)
        ≡ (if idx == i then 0 else flag (n fixed i + n static i + n dynamic i))
sum_free fixed idx i n e = ground arith
sum_free static idx i n e = ground arith
sum_free dynamic idx i n e = ground arith

sum_kept :
    (layer : ObstacleLayer) (idx i : ℕ) (n : Counts)
    → 0 < n layer idx
    → let m = at_layer layer (dip idx) n in
      (((m fixed idx == 0) && ((m static idx == 0) && (m dynamic idx == 0))) ≡ false)
      → flag (m fixed i + m static i + m dynamic i) ≡ flag (n fixed i + n static i + n dynamic i)
sum_kept fixed idx i n p e = ground arith
sum_kept static idx i n p e = ground arith
sum_kept dynamic idx i n p e = ground arith

pub clear_cell-Shows :
    {size : ℕ} (layer : ObstacleLayer) (idx : ℕ) (d : GridMapData) {n : Counts}
    → idx < size
    → 0 < n layer idx
    → Shows size d n
    → Shows size (clear_cell layer idx d) (at_layer layer (dip idx) n)
unfolding clear_cell
clear_cell-Shows {size} layer idx d {n} small some_left h =
    let e = release_cell layer idx d in
    let m = at_layer layer (dip idx) n in
    let (layers, same) = release_cell-Layers layer idx d small some_left h in
    let zero_test : is_free idx e
        ≡ ((m fixed idx == 0) && ((m static idx == 0) && (m dynamic idx == 0))) =
      rw
        (
          sym ((layers fixed).counted idx),
          sym ((layers static).counted idx),
          sym ((layers dynamic).counted idx),
        )
        refl in
    pick (λ c. Shows size c m) (is_free idx e)
      (λ free. record {
        merged_size = length-set e.grid idx 0 ∙ ap length same ∙ h.merged_size;
        layers = elim [ fixed ↦ layers fixed | static ↦ layers static | dynamic ↦ layers dynamic ];
        merged = λ i.
            at-set e.grid idx i 0 (omega (arith, ap length same ∙ h.merged_size))
            ∙ ground (
              arith,
              ap (λ g. at g i) same,
              h.merged i,
              sum_free layer idx i n (sym zero_test ∙ free),
            );
      })
      (λ busy. record {
        merged_size = ap length same ∙ h.merged_size;
        layers = layers;
        merged = λ i.
            ap (λ g. at g i) same
            ∙ h.merged i
            ∙ sym (sum_kept layer idx i n some_left (sym zero_test ∙ busy));
      })
