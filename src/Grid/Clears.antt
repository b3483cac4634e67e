-- ===== src/Grid/Clears.antt =====
-- Clearing a layer, or all.
use Prim.Native.Nat.{bit_or}
use rises.Base.{
  ℕ, zero, suc, ◌+◌, ◌≡◌, refl, ap, ◌∙◌, List, [], ◌∷◌, length, replicate, keep, arith,
}
use rises.Grid.{
  ObstacleLayer, fixed, static, dynamic, GridMapData, at, layer_grid, ref_count, zeros, merge_grids,
  clear_layer, clear, empty_grid,
}
use rises.Grid.Cells.{LayerShows, Shows, Shows-cong, Counts, flag, at_layer}
use rises.Grid.Counts.{outside, keep-Unique, occupancy-keep}
use rises.Grid.Edits.{Sound}

length-replicate : (n : ℕ) (v : ℕ) → length (replicate n v) ≡ n
length-replicate zero v = refl
length-replicate (suc n) v = ap suc (length-replicate n v)

at-zeros : (n i : ℕ) → at (replicate n 0) i ≡ 0
at-zeros zero i = refl
at-zeros (suc n) zero = refl
at-zeros (suc n) (suc i) = at-zeros n i

merge_flags : (a b c : ℕ) → bit_or (bit_or (flag a) (flag b)) (flag c) ≡ flag (a + b + c)
merge_flags zero zero zero = refl
merge_flags zero zero (suc c) = ground arith
merge_flags zero (suc b) zero = ground arith
merge_flags zero (suc b) (suc c) = ground arith
merge_flags (suc a) zero zero = ground arith
merge_flags (suc a) zero (suc c) = ground arith
merge_flags (suc a) (suc b) zero = ground arith
merge_flags (suc a) (suc b) (suc c) = ground arith

length-merge_grids : (gs fs ss ds : List ℕ) → length (merge_grids gs fs ss ds) ≡ length gs
unfolding merge_grids
length-merge_grids [] fs ss ds = refl
length-merge_grids (g ∷ gs) [] ss ds = refl
length-merge_grids (g ∷ gs) (f ∷ fs) [] ds = refl
length-merge_grids (g ∷ gs) (f ∷ fs) (s ∷ ss) [] = refl
length-merge_grids (g ∷ gs) (f ∷ fs) (s ∷ ss) (d ∷ ds) = ap suc (length-merge_grids gs fs ss ds)

at-merge_grids :
    (size : ℕ) (gs fs ss ds : List ℕ) (i : ℕ)
    → length gs ≡ size
    → length fs ≡ size
    → length ss ≡ size
    → length ds ≡ size
    → at (merge_grids gs fs ss ds) i ≡ bit_or (bit_or (at fs i) (at ss i)) (at ds i)
unfolding merge_grids
at-merge_grids zero [] [] [] [] i a b c d = refl
at-merge_grids (suc n) (g ∷ gs) (f ∷ fs) (s ∷ ss) (x ∷ ds) zero a b c d = refl
at-merge_grids (suc n) (g ∷ gs) (f ∷ fs) (s ∷ ss) (x ∷ ds) (suc i) a b c d =
    at-merge_grids n gs fs ss ds i (omega arith) (omega arith) (omega arith) (omega arith)
at-merge_grids _ _ _ _ _ i a b c d = absurd (omega arith)

-- Grids that are merged anew.
merged_anew :
    {size : ℕ} (d : GridMapData) {n : Counts}
    → length d.grid ≡ size
    → ((l : ObstacleLayer) → LayerShows size (layer_grid l d) (ref_count l d) (n l))
    → Shows size
        (record d { grid = merge_grids d.grid d.grid_fixed d.grid_static d.grid_dynamic })
        n
merged_anew {size} d {n} a layers = record {
  merged_size = length-merge_grids d.grid d.grid_fixed d.grid_static d.grid_dynamic ∙ a;
  layers = elim [ fixed ↦ layers fixed | static ↦ layers static | dynamic ↦ layers dynamic ];
  merged = λ i.
      at-merge_grids size d.grid d.grid_fixed d.grid_static d.grid_dynamic i a
        (layers fixed).grid_size (layers static).grid_size (layers dynamic).grid_size
      ∙ rw ((layers fixed).flagged i, (layers static).flagged i, (layers dynamic).flagged i)
          (merge_flags (n fixed i) (n static i) (n dynamic i));
}

abbrev nothing : (ℕ → ℕ) → ℕ → ℕ
nothing n i = 0

zero_layer :
    {size : ℕ} {grid refs : List ℕ} {n : ℕ → ℕ}
    → LayerShows size grid refs n
    → LayerShows size (zeros grid) (zeros refs) (nothing n)
zero_layer {grid = grid} {refs = refs} h = record {
  grid_size = length-replicate (length grid) 0 ∙ h.grid_size;
  refs_size = length-replicate (length refs) 0 ∙ h.refs_size;
  counted = λ i. at-zeros (length refs) i;
  flagged = λ i. at-zeros (length grid) i;
}

clear_layer-Shows :
    {size : ℕ} (layer : ObstacleLayer) (d : GridMapData) {n : Counts}
    → Shows size d n
    → Shows size (clear_layer layer d) (at_layer layer nothing n)
unfolding clear_layer
clear_layer-Shows fixed d {n} h = merged_anew _ h.merged_size (elim [
  | fixed ↦ zero_layer (h.layers fixed)
  | static ↦ h.layers static
  | dynamic ↦ h.layers dynamic
])
clear_layer-Shows static d {n} h = merged_anew _ h.merged_size (elim [
  | fixed ↦ h.layers fixed
  | static ↦ zero_layer (h.layers static)
  | dynamic ↦ h.layers dynamic
])
clear_layer-Shows dynamic d {n} h = merged_anew _ h.merged_size (elim [
  | fixed ↦ h.layers fixed
  | static ↦ h.layers static
  | dynamic ↦ zero_layer (h.layers dynamic)
])

pub clear_layer-obstacles :
    (layer : ObstacleLayer) (d : GridMapData)
    → (clear_layer layer d).obstacles ≡ keep (outside layer) d.obstacles
unfolding clear_layer
clear_layer-obstacles fixed d = refl
clear_layer-obstacles static d = refl
clear_layer-obstacles dynamic d = refl

pub clear_layer-Sound :
    {size : ℕ} (layer : ObstacleLayer) (d : GridMapData)
    → Sound size d
    → Sound size (clear_layer layer d)
clear_layer-Sound layer d h =
    let same = clear_layer-obstacles layer d in
    record {
      shows =
          Shows-cong (λ l i. rw same (ground (arith, occupancy-keep layer l i d.obstacles)))
            (clear_layer-Shows layer d h.shows);
      unique = rw same (keep-Unique layer d.obstacles h.unique);
    }

pub clear-Sound : {size : ℕ} (d : GridMapData) → Sound size d → Sound size (clear d)
unfolding clear
clear-Sound d h = record {
  shows = record {
    merged_size = length-replicate (length d.grid) 0 ∙ h.shows.merged_size;
    layers = elim [
      | fixed ↦ zero_layer (h.shows.layers fixed)
      | static ↦ zero_layer (h.shows.layers static)
      | dynamic ↦ zero_layer (h.shows.layers dynamic)
    ];
    merged = λ i. at-zeros (length d.grid) i;
  };
  unique = tt;
}

empty_layer : (size : ℕ) → LayerShows size (replicate size 0) (replicate size 0) (λ i. 0)
empty_layer size = record {
  grid_size = length-replicate size 0;
  refs_size = length-replicate size 0;
  counted = λ i. at-zeros size i;
  flagged = λ i. at-zeros size i;
}

pub empty_grid-Sound : (size : ℕ) → Sound size (empty_grid size)
unfolding empty_grid
empty_grid-Sound size = record {
  shows = record {
    merged_size = length-replicate size 0;
    layers = elim [
      | fixed ↦ empty_layer size
      | static ↦ empty_layer size
      | dynamic ↦ empty_layer size
    ];
    merged = λ i. at-zeros size i;
  };
  unique = tt;
}
