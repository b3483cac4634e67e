-- ===== src/Grid/Maps.antt =====
-- Runs of edits, against the obstacles that they leave.
use rises.Base.{
  ℕ, ◌+◌, ◌<◌, ◌≡◌, refl, sym, ap, ◌∙◌, inl, inr, Bool, true, not, ◌&&◌, ◌||◌, List, [], ◌∷◌,
  Option, none, some, if◌then◌else◌, ◌==◌, ==_iff, All, any, keep, arith, Bool-cases,
}
use rises.Base.Dict.{lookup, lookup-erase, nat_eq}
use rises.Grid.{
  ObstacleLayer, fixed, static, dynamic, same_layer, ObstacleInfo, GridMapData, empty_grid,
  is_occupied, is_occupied_in, insert, clear, Edit, inserts, removes, clears_layer, clears, step,
  run,
}
use rises.Grid.Counts.{times, occupancy, Unique, outside, lookup-outside}
use rises.Grid.Edits.{Sound, remove-Sound}
use rises.Grid.Inserts.{insert-Sound, insert-others, remove-obstacles}
use rises.Grid.Clears.{clear_layer-Sound, clear_layer-obstacles, clear-Sound, empty_grid-Sound}

-- An insertion of cells in range, which leaves no cell occupied more than 65535 times.
abbrev pub Fits : ℕ → Edit → GridMapData → Type 0
Fits size (inserts id layer cells) d =
    All (λ c. c < size) cells × ((i : ℕ) → occupancy d.obstacles layer i + times i cells < 65536)
Fits size _ d = Unit

abbrev pub Roomy : ℕ → List Edit → GridMapData → Type 0
Roomy size [] d = Unit
Roomy size (e ∷ rest) d = Fits size e d × Roomy size rest (step e d)

abbrev pub covers : ℕ → ℕ × ObstacleInfo → Bool
covers i entry = any (λ c. c == i) entry.1.occupied_cells

step-Sound :
    {size : ℕ} (e : Edit) (d : GridMapData) → Fits size e d → Sound size d → Sound size (step e d)
unfolding step
step-Sound (inserts id layer cells) d fits h = (insert-Sound id layer cells d fits.0 fits.1 h).0
step-Sound (removes id) d fits h = remove-Sound id d h
step-Sound (clears_layer layer) d fits h = clear_layer-Sound layer d h
step-Sound clears d fits h = clear-Sound d h

run-Sound :
    {size : ℕ} (es : List Edit) (d : GridMapData)
    → Roomy size es d
    → Sound size d
    → Sound size (run es d)
unfolding run
run-Sound [] d fits h = h
run-Sound (e ∷ es) d fits h = run-Sound es (step e d) fits.1 (step-Sound e d fits.0 h)

any-times : (i : ℕ) (cells : List ℕ) → any (λ c. c == i) cells ≡ not (times i cells == 0)
any-times i [] = ground arith
any-times i (c ∷ cells) = ground (arith, any-times i cells)

-- The layers in a mask, and whether any of their obstacles covers the cell.
abbrev in_mask : (ObstacleLayer → Bool) → ℕ → List (ℕ × ObstacleInfo) → Bool
in_mask mask i m =
    (mask fixed && not (occupancy m fixed i == 0))
    || ((mask static && not (occupancy m static i == 0))
        || (mask dynamic && not (occupancy m dynamic i == 0)))

in_mask-step :
    (mask : ObstacleLayer → Bool) (i id : ℕ) (cells : List ℕ) (m : List (ℕ × ObstacleInfo))
    (l : ObstacleLayer)
    → ((mask l && any (λ c. c == i) cells) || in_mask mask i m)
      ≡ in_mask mask i ((id, record { occupied_cells = cells; layer = l }) ∷ m)
in_mask-step mask i id cells m fixed = ground (arith, any-times i cells)
in_mask-step mask i id cells m static = ground (arith, any-times i cells)
in_mask-step mask i id cells m dynamic = ground (arith, any-times i cells)

any-mask :
    (mask : ObstacleLayer → Bool) (i : ℕ) (m : List (ℕ × ObstacleInfo))
    → any (λ entry. mask entry.1.layer && covers i entry) m ≡ in_mask mask i m
any-mask mask i [] = ground arith
any-mask mask i ((id, info) ∷ m) =
    ground (arith, any-mask mask i m) ∙ in_mask-step mask i id info.occupied_cells m info.layer

any-every :
    (i : ℕ) (m : List (ℕ × ObstacleInfo))
    → any (covers i) m
      ≡ not (occupancy m fixed i + occupancy m static i + occupancy m dynamic i == 0)
any-every i m = any-mask (λ l. true) i m ∙ ground arith

-- After any insertions, removals and clearings, from the empty map of a size, whose insertions are
-- in range and occupy no cell more than 65535 times: a cell is occupied exactly when a stored
-- obstacle covers it, and occupied in a mask of layers exactly when one in those layers does.
pub run-occupied :
    (size : ℕ) (es : List Edit) (mask : ObstacleLayer → Bool) (idx : ℕ)
    → Roomy size es (empty_grid size)
    → let d = run es (empty_grid size) in
      (is_occupied idx d ≡ any (covers idx) d.obstacles)
      × (is_occupied_in mask idx d
          ≡ any (λ entry. mask entry.1.layer && covers idx entry) d.obstacles)
unfolding is_occupied is_occupied_in
run-occupied size es mask idx fits =
    let d = run es (empty_grid size) in
    let s = (run-Sound es (empty_grid size) fits (empty_grid-Sound size)).shows in
    (
      ground (arith, s.merged idx, any-every idx d.obstacles),
      ground (
        arith,
        (s.layers fixed).flagged idx,
        (s.layers static).flagged idx,
        (s.layers dynamic).flagged idx,
        any-mask mask idx d.obstacles,
      ),
    )

-- What is kept of an obstacle when a layer is cleared.
abbrev pub unless_in : ObstacleLayer → Option ObstacleInfo → Option ObstacleInfo
unless_in layer none = none
unless_in layer (some info) = if same_layer info.layer layer then none else some info

-- The obstacle that edits leave under an id, from the one that they find.
abbrev pub stored : ℕ → List Edit → Option ObstacleInfo → Option ObstacleInfo
stored id [] found = found
stored id (inserts j layer cells ∷ es) found =
    stored id es
      (if j == id then some (record { occupied_cells = cells; layer = layer }) else found)
stored id (removes j ∷ es) found = stored id es (if j == id then none else found)
stored id (clears_layer layer ∷ es) found = stored id es (unless_in layer found)
stored id (clears ∷ es) found = stored id es none

lookup-keep :
    (layer : ObstacleLayer) (id : ℕ) (m : List (ℕ × ObstacleInfo))
    → Unique m
    → lookup id (keep (outside layer) m) ≡ unless_in layer (lookup id m)
unfolding lookup
lookup-keep layer id [] u = refl
lookup-keep layer id ((j, info) ∷ m) u =
    let gone : (j ≡ id) → lookup id (keep (outside layer) m) ≡ none =
      λ e. lookup-outside layer id m (rw e at u.0) in
    ground (arith, lookup-keep layer id m u.1, gone, ==_iff j id)

step-stored :
    {size : ℕ} (e : Edit) (es : List Edit) (id : ℕ) (d : GridMapData)
    → Fits size e d
    → Sound size d
    → stored id es (lookup id (step e d).obstacles) ≡ stored id (e ∷ es) (lookup id d.obstacles)
unfolding step clear lookup
step-stored (inserts j layer cells) es id d fits h =
    ap (stored id es) (elim (Bool-cases (j == id)) [
      | inl e ↦
          let same : j ≡ id = (==_iff j id).0 e in
          rw e (
            ap (λ k. lookup k (insert j layer cells d).obstacles) (sym same)
            ∙ (insert-Sound j layer cells d fits.0 fits.1 h).1)
      | inr e ↦ rw e (insert-others j id layer cells d e)
    ])
step-stored (removes j) es id d fits h =
    ap (stored id es) (ap (lookup id) (remove-obstacles j d) ∙ lookup-erase j id d.obstacles)
step-stored (clears_layer layer) es id d fits h =
    ap (stored id es)
      (ap (lookup id) (clear_layer-obstacles layer d) ∙ lookup-keep layer id d.obstacles h.unique)
step-stored clears es id d fits h = refl

run-stored_from :
    {size : ℕ} (es : List Edit) (id : ℕ) (d : GridMapData)
    → Roomy size es d
    → Sound size d
    → lookup id (run es d).obstacles ≡ stored id es (lookup id d.obstacles)
unfolding run
run-stored_from [] id d fits h = refl
run-stored_from (e ∷ es) id d fits h =
    run-stored_from es id (step e d) fits.1 (step-Sound e d fits.0 h)
    ∙ step-stored e es id d fits.0 h

-- After any edits whose insertions are in range and occupy no cell more than 65535 times, the obstacle
-- stored under an id is the one last inserted, with the cells and the layer given then, unless it, its layer or the map has been cleared since.
pub run-stored :
    (size : ℕ) (es : List Edit) (id : ℕ)
    → Roomy size es (empty_grid size)
    → lookup id (run es (empty_grid size)).obstacles ≡ stored id es none
unfolding empty_grid lookup
run-stored size es id fits = run-stored_from es id (empty_grid size) fits (empty_grid-Sound size)
