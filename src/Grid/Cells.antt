-- ===== src/Grid/Cells.antt =====
-- The vectors at each cell, against the number of times that each layer occupies it.
use rises.Base.{
  ℕ, zero, suc, ◌+◌, ◌-◌, ◌%◌, ◌<◌, ◌≡◌, refl, ap, ◌∙◌, List, [], ◌∷◌, if◌then◌else◌, ◌==◌, length,
  set, length-set, arith,
}
use rises.Grid.{
  ObstacleLayer, fixed, static, dynamic, same_layer, GridMapData, at, layer_grid, ref_count,
  set_cell,
}

abbrev pub flag : ℕ → ℕ
flag zero = 0
flag (suc n) = 1

abbrev pub Counts : Type 0
Counts = ObstacleLayer → ℕ → ℕ

pub at-set :
    (xs : List ℕ) (j i v : ℕ) → j < length xs → at (set xs j v) i ≡ (if j == i then v else at xs i)
at-set [] j i v h = absurd (omega arith)
at-set (x ∷ xs) zero zero v h = refl
at-set (x ∷ xs) zero (suc i) v h = ground arith
at-set (x ∷ xs) (suc j) zero v h = ground arith
at-set (x ∷ xs) (suc j) (suc i) v h = at-set xs j i v (omega arith) ∙ ground arith

-- A layer's vectors have one entry for each of the cells; the reference counts are the counts, and
-- the grid has a one where these are positive.
pub record LayerShows (size : ℕ) (grid refs : List ℕ) (n : ℕ → ℕ) : Type 0 where
  pub grid_size : length grid ≡ size
  pub refs_size : length refs ≡ size
  pub counted : (i : ℕ) → at refs i ≡ n i
  pub flagged : (i : ℕ) → at grid i ≡ flag (n i)

-- So for each layer, and the merged grid has a one where any layer has.
pub record Shows (size : ℕ) (d : GridMapData) (n : Counts) : Type 0 where
  pub merged_size : length d.grid ≡ size
  pub layers : (l : ObstacleLayer) → LayerShows size (layer_grid l d) (ref_count l d) (n l)
  pub merged : (i : ℕ) → at d.grid i ≡ flag (n fixed i + n static i + n dynamic i)

pub Shows-cong :
    {size : ℕ} {d : GridMapData} {n m : Counts}
    → ((l : ObstacleLayer) (i : ℕ) → n l i ≡ m l i)
    → Shows size d n
    → Shows size d m
Shows-cong {m = m} e h = record {
  merged_size = h.merged_size;
  layers = λ l. record {
    grid_size = (h.layers l).grid_size;
    refs_size = (h.layers l).refs_size;
    counted = λ i. (h.layers l).counted i ∙ e l i;
    flagged = λ i. (h.layers l).flagged i ∙ ap flag (e l i);
  };
  merged = λ i. h.merged i ∙ rw (e fixed i, e static i, e dynamic i) refl;
}

abbrev pub bump : ℕ → (ℕ → ℕ) → ℕ → ℕ
bump idx n i = if idx == i then n i + 1 else n i

abbrev pub dip : ℕ → (ℕ → ℕ) → ℕ → ℕ
dip idx n i = if idx == i then n i - 1 else n i

-- One layer's counts are changed.
abbrev pub at_layer : ObstacleLayer → ((ℕ → ℕ) → ℕ → ℕ) → Counts → Counts
at_layer layer f n l = if same_layer layer l then f (n l) else n l

set_layer :
    {size : ℕ} {grid refs : List ℕ} {n : ℕ → ℕ} (idx : ℕ)
    → idx < size
    → n idx + 1 < 65536
    → LayerShows size grid refs n
    → LayerShows size (set grid idx 1) (set refs idx ((at refs idx + 1) % 65536)) (bump idx n)
set_layer {grid = grid} {refs = refs} {n = n} idx small room h = record {
  grid_size = length-set grid idx 1 ∙ h.grid_size;
  refs_size = length-set refs idx _ ∙ h.refs_size;
  counted = λ i.
      at-set refs idx i ((at refs idx + 1) % 65536) (omega (arith, h.refs_size))
      ∙ ground (arith, h.counted i, h.counted idx);
  flagged = λ i. at-set grid idx i 1 (omega (arith, h.grid_size)) ∙ ground (arith, h.flagged i);
}

set_merged :
    {size : ℕ} {d : GridMapData} {n : Counts} (layer : ObstacleLayer) (idx i : ℕ)
    → idx < size
    → Shows size d n
    → let m = at_layer layer (bump idx) n in
      at (set d.grid idx 1) i ≡ flag (m fixed i + m static i + m dynamic i)
set_merged {d = d} fixed idx i small h =
    at-set d.grid idx i 1 (omega (arith, h.merged_size)) ∙ ground (arith, h.merged i)
set_merged {d = d} static idx i small h =
    at-set d.grid idx i 1 (omega (arith, h.merged_size)) ∙ ground (arith, h.merged i)
set_merged {d = d} dynamic idx i small h =
    at-set d.grid idx i 1 (omega (arith, h.merged_size)) ∙ ground (arith, h.merged i)

pub set_cell-Shows :
    {size : ℕ} (layer : ObstacleLayer) (idx : ℕ) (d : GridMapData) {n : Counts}
    → idx < size
    → n layer idx + 1 < 65536
    → Shows size d n
    → Shows size (set_cell layer idx d) (at_layer layer (bump idx) n)
unfolding set_cell
set_cell-Shows fixed idx d small room h = record {
  merged_size = length-set d.grid idx 1 ∙ h.merged_size;
  layers = elim [
    | fixed ↦ set_layer idx small room (h.layers fixed)
    | static ↦ h.layers static
    | dynamic ↦ h.layers dynamic
  ];
  merged = λ i. set_merged fixed idx i small h;
}
set_cell-Shows static idx d small room h = record {
  merged_size = length-set d.grid idx 1 ∙ h.merged_size;
  layers = elim [
    | fixed ↦ h.layers fixed
    | static ↦ set_layer idx small room (h.layers static)
    | dynamic ↦ h.layers dynamic
  ];
  merged = λ i. set_merged static idx i small h;
}
set_cell-Shows dynamic idx d small room h = record {
  merged_size = length-set d.grid idx 1 ∙ h.merged_size;
  layers = elim [
    | fixed ↦ h.layers fixed
    | static ↦ h.layers static
    | dynamic ↦ set_layer idx small room (h.layers dynamic)
  ];
  merged = λ i. set_merged dynamic idx i small h;
}
