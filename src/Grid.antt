-- ===== src/Grid.antt =====
-- src/geofence/gridmap_node: gridmap_data.hpp, gridmap_data.cpp and gridmap_policies.cpp.
-- The cells that a rasteriser finds for an obstacle, by floating-point geometry, are an argument of
-- `insert`, in its order. Ids are only compared.
pub mod Cells
pub mod Frees
pub mod Counts
pub mod Edits
pub mod Inserts
pub mod Clears
pub mod Maps
pub mod Lines
pub mod Bresenham
pub mod Strides
pub mod Visits
pub mod Blocked
mod Tests
use Prim.Native.Nat.{bit_or}
use rises.Base.{
  ℕ, zero, suc, ◌+◌, ◌-◌, ◌*◌, ◌%◌, Bool, true, false, not, ◌&&◌, ◌||◌, List, [], ◌∷◌, ◌++◌, Option,
  none, some, if◌then◌else◌, ltb, ◌==◌, length, get_elem?, set, replicate, keep, count_if,
}
use rises.Base.Dict.{lookup, update, erase, or_new, nat_eq}

pub data ObstacleLayer : Type 0 where
  fixed static dynamic : ObstacleLayer

abbrev pub same_layer : ObstacleLayer → ObstacleLayer → Bool
same_layer fixed fixed = true
same_layer static static = true
same_layer dynamic dynamic = true
same_layer _ _ = false

-- `ObstacleInfo`, without the message.
pub record ObstacleInfo : Type 0 where
  pub occupied_cells : List ℕ
  pub layer : ObstacleLayer

pub record GridMapData : Type 0 where
  pub grid : List ℕ
  pub grid_fixed : List ℕ
  pub grid_static : List ℕ
  pub grid_dynamic : List ℕ
  pub ref_fixed : List ℕ
  pub ref_static : List ℕ
  pub ref_dynamic : List ℕ
  pub obstacles : List (ℕ × ObstacleInfo)

-- The constructor, for the number of cells.
pub empty_grid : ℕ → GridMapData
empty_grid total_cells = record {
  grid = replicate total_cells 0;
  grid_fixed = replicate total_cells 0;
  grid_static = replicate total_cells 0;
  grid_dynamic = replicate total_cells 0;
  ref_fixed = replicate total_cells 0;
  ref_static = replicate total_cells 0;
  ref_dynamic = replicate total_cells 0;
  obstacles = [];
}

-- A byte of a vector; every index in use is in range.
abbrev pub at : List ℕ → ℕ → ℕ
at xs i = or_new 0 (get_elem? xs i)

abbrev pub layer_grid : ObstacleLayer → GridMapData → List ℕ
layer_grid fixed d = d.grid_fixed
layer_grid static d = d.grid_static
layer_grid dynamic d = d.grid_dynamic

abbrev pub with_layer_grid : ObstacleLayer → List ℕ → GridMapData → GridMapData
with_layer_grid fixed xs d = record d { grid_fixed = xs }
with_layer_grid static xs d = record d { grid_static = xs }
with_layer_grid dynamic xs d = record d { grid_dynamic = xs }

abbrev pub ref_count : ObstacleLayer → GridMapData → List ℕ
ref_count fixed d = d.ref_fixed
ref_count static d = d.ref_static
ref_count dynamic d = d.ref_dynamic

abbrev pub with_ref_count : ObstacleLayer → List ℕ → GridMapData → GridMapData
with_ref_count fixed xs d = record d { ref_fixed = xs }
with_ref_count static xs d = record d { ref_static = xs }
with_ref_count dynamic xs d = record d { ref_dynamic = xs }

-- The cell is set in the merged grid and in its layer's, and counted (`uint16_t`).
pub set_cell : ObstacleLayer → ℕ → GridMapData → GridMapData
set_cell layer idx d =
    let merged = record d { grid = set d.grid idx 1 } in
    let marked = with_layer_grid layer (set (layer_grid layer merged) idx 1) merged in
    let count = at (ref_count layer marked) idx in
    with_ref_count layer (set (ref_count layer marked) idx ((count + 1) % 65536)) marked

abbrev pub blank_info : ObstacleInfo
blank_info = record { occupied_cells = []; layer = static }

abbrev pub add_cell : ℕ → ObstacleInfo → ObstacleInfo
add_cell idx info = record info { occupied_cells = info.occupied_cells ++ idx ∷ [] }

-- What each rasteriser does with the cells that it finds.
pub rasterize : ℕ → ObstacleLayer → List ℕ → GridMapData → GridMapData
unfolding set_cell
rasterize id layer [] d = d
rasterize id layer (idx ∷ rest) d =
    let marked = set_cell layer idx d in
    rasterize id layer rest
      (record marked { obstacles = update id blank_info (add_cell idx) marked.obstacles })

-- One round of the loop of `clearObstacleCells`, up to the merged grid.
pub release_cell : ObstacleLayer → ℕ → GridMapData → GridMapData
release_cell layer idx d =
    let count = at (ref_count layer d) idx in
    let counted =
      if ltb 0 count then with_ref_count layer (set (ref_count layer d) idx (count - 1)) d else d in
    if at (ref_count layer counted) idx == 0
    then with_layer_grid layer (set (layer_grid layer counted) idx 0) counted
    else counted

abbrev pub is_free : ℕ → GridMapData → Bool
is_free idx d =
    (at d.ref_fixed idx == 0) && ((at d.ref_static idx == 0) && (at d.ref_dynamic idx == 0))

pub clear_cell : ObstacleLayer → ℕ → GridMapData → GridMapData
unfolding release_cell
clear_cell layer idx d =
    let cleared = release_cell layer idx d in
    if is_free idx cleared then record cleared { grid = set cleared.grid idx 0 } else cleared

pub clear_cells : ObstacleLayer → List ℕ → GridMapData → GridMapData
unfolding clear_cell
clear_cells layer [] d = d
clear_cells layer (idx ∷ rest) d = clear_cells layer rest (clear_cell layer idx d)

-- `ObstacleRemovalPolicy::remove`
pub remove : ℕ → GridMapData → GridMapData
unfolding clear_cells
remove id d = elim (lookup id d.obstacles) [
  | none ↦ d
  | some info ↦
      let cleared = clear_cells info.layer info.occupied_cells d in
      record cleared { obstacles = erase id cleared.obstacles }
]

abbrev pub is_there : {V : Type 0} → Option V → Bool
is_there none = false
is_there (some v) = true

-- `ObstacleInsertionPolicy::insert`
pub insert : ℕ → ObstacleLayer → List ℕ → GridMapData → GridMapData
unfolding remove rasterize
insert id layer cells d =
    let freed = if is_there (lookup id d.obstacles) then remove id d else d in
    let info : ObstacleInfo = record { occupied_cells = []; layer = layer } in
    rasterize id layer cells
      (record freed { obstacles = update id info (λ _. info) freed.obstacles })

-- The merged grid as the bitwise or of the layers' grids.
pub merge_grids : List ℕ → List ℕ → List ℕ → List ℕ → List ℕ
merge_grids [] fs ss ds = []
merge_grids (g ∷ gs) (f ∷ fs) (s ∷ ss) (d ∷ ds) = bit_or (bit_or f s) d ∷ merge_grids gs fs ss ds
merge_grids gs _ _ _ = gs

abbrev pub zeros : List ℕ → List ℕ
zeros xs = replicate (length xs) 0

pub clear_layer : ObstacleLayer → GridMapData → GridMapData
unfolding merge_grids
clear_layer layer d =
    let emptied =
      with_ref_count layer (zeros (ref_count layer d))
        (with_layer_grid layer (zeros (layer_grid layer d)) d) in
    let left = record emptied {
      obstacles = keep (λ entry. not (same_layer entry.1.layer layer)) emptied.obstacles;
    } in
    record left { grid = merge_grids left.grid left.grid_fixed left.grid_static left.grid_dynamic }

-- `GridClearPolicy::clear`
pub clear : GridMapData → GridMapData
clear d = record {
  grid = zeros d.grid;
  grid_fixed = zeros d.grid_fixed;
  grid_static = zeros d.grid_static;
  grid_dynamic = zeros d.grid_dynamic;
  ref_fixed = zeros d.ref_fixed;
  ref_static = zeros d.ref_static;
  ref_dynamic = zeros d.ref_dynamic;
  obstacles = [];
}

-- `isOccupied` at a cell that `worldToGrid` gives, without a mask and with one.
pub is_occupied : ℕ → GridMapData → Bool
is_occupied idx d = not (at d.grid idx == 0)

pub is_occupied_in : (ObstacleLayer → Bool) → ℕ → GridMapData → Bool
is_occupied_in mask idx d =
    if mask fixed && not (at d.grid_fixed idx == 0)
    then true
    else if mask static && not (at d.grid_static idx == 0)
    then true
    else if mask dynamic && not (at d.grid_dynamic idx == 0)
    then true
    else false

pub data Edit : Type 0 where
  inserts : ℕ → ObstacleLayer → List ℕ → Edit
  removes : ℕ → Edit
  clears_layer : ObstacleLayer → Edit
  clears : Edit

pub step : Edit → GridMapData → GridMapData
unfolding insert remove clear_layer clear
step (inserts id layer cells) d = insert id layer cells d
step (removes id) d = remove id d
step (clears_layer layer) d = clear_layer layer d
step clears d = clear d

pub run : List Edit → GridMapData → GridMapData
run [] d = d
run (e ∷ rest) d = run rest (step e d)
