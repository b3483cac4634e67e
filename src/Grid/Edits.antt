-- ===== src/Grid/Edits.antt =====
-- What each edit of the map does to the counts.
use rises.Base.{
  ℕ, zero, suc, ◌+◌, ◌-◌, ◌≤◌, ◌<◌, ◌≡◌, refl, sym, ◌∙◌, inl, inr, Bool, true, false, List, [], ◌∷◌,
  ◌++◌, append-nil, append_assoc, some, if◌then◌else◌, ◌==◌, length, set, count_if-append, All,
  arith, Option-cases,
}
use rises.Base.Dict.{lookup, update, lookup-update, nat_eq}
use rises.Grid.{
  ObstacleLayer, fixed, static, dynamic, same_layer, ObstacleInfo, GridMapData, at, ref_count,
  is_free, set_cell, release_cell, clear_cell, clear_cells, add_cell, blank_info, rasterize, remove,
}
use rises.Grid.Cells.{Shows, Shows-cong, Counts, at_layer, bump, dip, set_cell-Shows}
use rises.Grid.Frees.{clear_cell-Shows}
use rises.Grid.Counts.{
  times, part, occupancy, Unique, occupancy-update, occupancy-erase, update-Unique, erase-Unique,
}

in_range : (xs : List ℕ) (i : ℕ) → 0 < at xs i → i < length xs
in_range [] i h = absurd (omega arith)
in_range (x ∷ xs) zero h = omega arith
in_range (x ∷ xs) (suc i) h = let below = in_range xs i h in omega (arith, below)

-- An occupied cell is in range.
occupied_below :
    {size : ℕ} {d : GridMapData} {n : Counts} (l : ObstacleLayer) (i : ℕ)
    → Shows size d n
    → 0 < n l i
    → i < size
occupied_below {d = d} l i h p =
    let seen = h.layers l in
    let positive : 0 < at (ref_count l d) i = omega (arith, seen.counted i) in
    omega (arith, in_range (ref_count l d) i positive, seen.refs_size)

same_layer_refl : (l : ObstacleLayer) → same_layer l l ≡ true
same_layer_refl fixed = refl
same_layer_refl static = refl
same_layer_refl dynamic = refl

abbrev pub taken : List ℕ → (ℕ → ℕ) → ℕ → ℕ
taken cells n i = n i - times i cells

clear_cells-Shows :
    {size : ℕ} (layer : ObstacleLayer) (cells : List ℕ) (d : GridMapData) {n : Counts}
    → ((i : ℕ) → times i cells ≤ n layer i)
    → Shows size d n
    → Shows size (clear_cells layer cells d) (at_layer layer (taken cells) n)
unfolding clear_cells
clear_cells-Shows layer [] d enough h = Shows-cong (λ l i. ground arith) h
clear_cells-Shows {size} layer (idx ∷ cells) d {n} enough h =
    let refl_layer = same_layer_refl layer in
    let some_left : 0 < n layer idx = ground (arith, enough idx) in
    let next = clear_cell-Shows layer idx d (occupied_below layer idx h some_left) some_left h in
    Shows-cong (λ l i. ground (arith, enough i))
      (clear_cells-Shows layer cells (clear_cell layer idx d) {n = at_layer layer (dip idx) n}
        (λ i. rw refl_layer (ground (arith, enough i))) next)

release_cell-obstacles :
    (layer : ObstacleLayer) (idx : ℕ) (d : GridMapData)
    → (release_cell layer idx d).obstacles ≡ d.obstacles
unfolding release_cell
release_cell-obstacles fixed idx d = ground arith
release_cell-obstacles static idx d = ground arith
release_cell-obstacles dynamic idx d = ground arith

pub clear_cells-obstacles :
    (layer : ObstacleLayer) (cells : List ℕ) (d : GridMapData)
    → (clear_cells layer cells d).obstacles ≡ d.obstacles
unfolding clear_cells clear_cell
clear_cells-obstacles layer [] d = refl
clear_cells-obstacles layer (idx ∷ cells) d =
    clear_cells-obstacles layer cells (clear_cell layer idx d)
    ∙ kept (is_free idx (release_cell layer idx d))
  where
    kept :
        (b : Bool)
        → let c = release_cell layer idx d in
          (if b then record c { grid = set c.grid idx 0 } else c).obstacles ≡ d.obstacles
    kept true = release_cell-obstacles layer idx d
    kept false = release_cell-obstacles layer idx d

-- The vectors count what the obstacles occupy, and no id stands twice.
pub record Sound (size : ℕ) (d : GridMapData) : Type 0 where
  pub shows : Shows size d (occupancy d.obstacles)
  pub unique : Unique d.obstacles

pub with_obstacles :
    {size : ℕ} {d : GridMapData} {n : Counts} (m : List (ℕ × ObstacleInfo))
    → Shows size d n
    → Shows size (record d { obstacles = m }) n
with_obstacles m h = record {
  merged_size = h.merged_size;
  layers = elim [ fixed ↦ h.layers fixed | static ↦ h.layers static | dynamic ↦ h.layers dynamic ];
  merged = h.merged;
}

part_le :
    (l : ObstacleLayer) (i id : ℕ) (m : List (ℕ × ObstacleInfo)) {info : ObstacleInfo}
    → Unique m
    → lookup id m ≡ some info
    → part info l i ≤ occupancy m l i
part_le l i id m u e = omega (arith, occupancy-erase l i id m u e)

pub remove-Sound : {size : ℕ} (id : ℕ) (d : GridMapData) → Sound size d → Sound size (remove id d)
unfolding remove
remove-Sound {size} id d h = elim (Option-cases (lookup id d.obstacles)) [
  | inl e ↦ rw (e, remove) h
  | inr (info, e) ↦
      let layer = info.layer in
      let cells = info.occupied_cells in
      let enough : (i : ℕ) → times i cells ≤ occupancy d.obstacles layer i = λ i.
        let le = part_le layer i id d.obstacles h.unique e in
        ground (arith, le, same_layer_refl layer) in
      let same = clear_cells-obstacles layer cells d in
      rw (e, remove)
        (record {
          shows = with_obstacles _ (
              Shows-cong
                (λ l i. rw same (ground (arith, occupancy-erase l i id d.obstacles h.unique e)))
                (clear_cells-Shows layer cells d enough h.shows));
          unique = rw same (erase-Unique id d.obstacles h.unique);
        })
]

pub set_cell-obstacles :
    (layer : ObstacleLayer) (idx : ℕ) (d : GridMapData)
    → (set_cell layer idx d).obstacles ≡ d.obstacles
unfolding set_cell
set_cell-obstacles fixed idx d = refl
set_cell-obstacles static idx d = refl
set_cell-obstacles dynamic idx d = refl

times-append : (i : ℕ) (xs ys : List ℕ) → times i (xs ++ ys) ≡ times i xs + times i ys
times-append i xs ys = count_if-append (λ c. c == i) xs ys

-- One more cell of an obstacle that is stored.
occupancy-add :
    (id idx : ℕ) (m : List (ℕ × ObstacleInfo)) {info : ObstacleInfo} (l : ObstacleLayer) (i : ℕ)
    → lookup id m ≡ some info
    → at_layer info.layer (bump idx) (occupancy m) l i
      ≡ occupancy (update id blank_info (add_cell idx) m) l i
occupancy-add id idx m {info} l i e =
    let change = occupancy-update l i id blank_info (add_cell idx) m in
    let change' : occupancy (update id blank_info (add_cell idx) m) l i + part info l i
        ≡ occupancy m l i + part (add_cell idx info) l i =
      rw e at change in
    ground (arith, change', times-append i info.occupied_cells (idx ∷ []))

abbrev pub filled : ObstacleInfo → List ℕ → ObstacleInfo
filled info cells = record info { occupied_cells = info.occupied_cells ++ cells }

-- The obstacle being drawn is stored, and there is room for its cells in range.
pub rasterize-Sound :
    {size : ℕ} (id : ℕ) (layer : ObstacleLayer) (cells : List ℕ) (d : GridMapData)
    {info : ObstacleInfo}
    → lookup id d.obstacles ≡ some info
    → info.layer ≡ layer
    → All (λ c. c < size) cells
    → ((i : ℕ) → occupancy d.obstacles layer i + times i cells < 65536)
    → Sound size d
    → Sound size (rasterize id layer cells d)
      × (lookup id (rasterize id layer cells d).obstacles ≡ some (filled info cells))
unfolding rasterize
rasterize-Sound id layer [] d {info} e o inside room h =
    (h, e ∙ rw (append-nil info.occupied_cells) refl)
rasterize-Sound {size} id layer (idx ∷ cells) d {info} e o inside room h =
    let marked = set_cell layer idx d in
    let same : marked.obstacles ≡ d.obstacles = set_cell-obstacles layer idx d in
    let room_here : occupancy d.obstacles layer idx + 1 < 65536 = ground (arith, room idx) in
    let e' : lookup id (update id blank_info (add_cell idx) marked.obstacles)
        ≡ some (add_cell idx info) =
      rw same (lookup-update id id blank_info (add_cell idx) d.obstacles ∙ rw e (ground arith)) in
    let counts : (l : ObstacleLayer) (i : ℕ)
        → at_layer layer (bump idx) (occupancy d.obstacles) l i
          ≡ occupancy (update id blank_info (add_cell idx) marked.obstacles) l i =
      λ l i. rw (same, sym o) (occupancy-add id idx d.obstacles l i e) in
    let next : Sound size
        (record marked { obstacles = update id blank_info (add_cell idx) marked.obstacles }) =
      record {
        shows =
            with_obstacles _
              (Shows-cong counts (set_cell-Shows layer idx d inside.0 room_here h.shows));
        unique = rw same (update-Unique id blank_info (add_cell idx) d.obstacles h.unique);
      } in
    let out =
      rasterize-Sound id layer cells _ {info = add_cell idx info} e' o inside.1
        (λ i. ground (arith, room i, sym (counts layer i), same_layer_refl layer)) next in
    (out.0, out.1 ∙ rw (append_assoc info.occupied_cells (idx ∷ []) cells) refl)
