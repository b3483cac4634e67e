-- ===== src/Grid/Inserts.antt =====
-- Insertion and removal, with the obstacles that are stored.
use rises.Base.{
  ℕ, ◌+◌, ◌≤◌, ◌<◌, ◌≡◌, refl, sym, ap, ◌∙◌, inl, inr, Bool, true, false, List, [], ◌∷◌, none, some,
  if◌then◌else◌, ◌==◌, All, arith, Option-cases,
}
use rises.Base.Dict.{lookup, update, erase, lookup-update, lookup-erase, nat_eq}
use rises.Grid.{
  ObstacleLayer, ObstacleInfo, GridMapData, set_cell, add_cell, blank_info, rasterize, remove,
  insert, is_there,
}
use rises.Grid.Cells.{Shows-cong}
use rises.Grid.Counts.{
  times, occupancy, Unique, occupancy-update, occupancy-erase, erase_missing, update-Unique,
}
use rises.Grid.Edits.{
  Sound, with_obstacles, clear_cells-obstacles, set_cell-obstacles, remove-Sound, rasterize-Sound,
}

pub remove-obstacles : (id : ℕ) (d : GridMapData) → (remove id d).obstacles ≡ erase id d.obstacles
unfolding remove
remove-obstacles id d = elim (Option-cases (lookup id d.obstacles)) [
  | inl e ↦ rw (e, remove) (sym (erase_missing id d.obstacles e))
  | inr (info, e) ↦
      rw (e, remove) (ap (λ m. erase id m) (clear_cells-obstacles info.layer info.occupied_cells d))
]

-- The map without the old version of an obstacle.
abbrev freed : ℕ → GridMapData → GridMapData
freed id d = if is_there (lookup id d.obstacles) then remove id d else d

freed-obstacles : (id : ℕ) (d : GridMapData) → (freed id d).obstacles ≡ erase id d.obstacles
freed-obstacles id d = elim (Option-cases (lookup id d.obstacles)) [
  | inl e ↦ rw e (sym (erase_missing id d.obstacles e))
  | inr (info, e) ↦ rw e (remove-obstacles id d)
]

freed-Sound : {size : ℕ} (id : ℕ) (d : GridMapData) → Sound size d → Sound size (freed id d)
freed-Sound {size} id d h = arms (is_there (lookup id d.obstacles))
  where
    arms : (b : Bool) → Sound size (if b then remove id d else d)
    arms true = remove-Sound id d h
    arms false = h

erase_le :
    (l : ObstacleLayer) (i id : ℕ) (m : List (ℕ × ObstacleInfo))
    → Unique m
    → occupancy (erase id m) l i ≤ occupancy m l i
erase_le l i id m u = elim (Option-cases (lookup id m)) [
  | inl e ↦ omega (arith, ap (λ t. occupancy t l i) (erase_missing id m e))
  | inr (info, e) ↦ omega (arith, occupancy-erase l i id m u e)
]

-- The new entry, which occupies nothing yet.
opened :
    (l : ObstacleLayer) (i id : ℕ) (layer : ObstacleLayer) (m : List (ℕ × ObstacleInfo))
    → let info : ObstacleInfo = record { occupied_cells = []; layer = layer } in
      lookup id m ≡ none → occupancy (update id info (λ _. info) m) l i ≡ occupancy m l i
opened l i id layer m e =
    let info : ObstacleInfo = record { occupied_cells = []; layer = layer } in
    let change = occupancy-update l i id info (λ _. info) m in
    let change' = rw e at change in ground (arith, change')

-- With cells in range, and no cell occupied more than 65535 times by its layer.
pub insert-Sound :
    {size : ℕ} (id : ℕ) (layer : ObstacleLayer) (cells : List ℕ) (d : GridMapData)
    → All (λ c. c < size) cells
    → ((i : ℕ) → occupancy d.obstacles layer i + times i cells < 65536)
    → Sound size d
    → Sound size (insert id layer cells d)
      × (lookup id (insert id layer cells d).obstacles
          ≡ some (record { occupied_cells = cells; layer = layer }))
unfolding insert
insert-Sound {size} id layer cells d inside room h =
    let info : ObstacleInfo = record { occupied_cells = []; layer = layer } in
    let f = freed id d in
    let sound = freed-Sound id d h in
    let same : f.obstacles ≡ erase id d.obstacles = freed-obstacles id d in
    let gone : lookup id f.obstacles ≡ none =
      rw same (lookup-erase id id d.obstacles ∙ ground arith) in
    let opens : (l : ObstacleLayer) (i : ℕ)
        → occupancy (update id info (λ _. info) f.obstacles) l i ≡ occupancy f.obstacles l i =
      λ l i. opened l i id layer f.obstacles gone in
    let next : Sound size (record f { obstacles = update id info (λ _. info) f.obstacles }) =
      record {
        shows = with_obstacles _ (Shows-cong (λ l i. sym (opens l i)) sound.shows);
        unique = update-Unique id info (λ _. info) f.obstacles sound.unique;
      } in
    rasterize-Sound id layer cells _ {info = info}
      (lookup-update id id info (λ _. info) f.obstacles ∙ ground (arith, gone)) refl inside
      (λ i. omega (
        arith,
        room i,
        opens layer i,
        ap (λ m. occupancy m layer i) same,
        erase_le layer i id d.obstacles h.unique,
      ))
      next

rasterize-others :
    (id j : ℕ) (layer : ObstacleLayer) (cells : List ℕ) (d : GridMapData)
    → (id == j) ≡ false
    → lookup j (rasterize id layer cells d).obstacles ≡ lookup j d.obstacles
unfolding rasterize
rasterize-others id j layer [] d e = refl
rasterize-others id j layer (idx ∷ cells) d e =
    rasterize-others id j layer cells _ e
    ∙ lookup-update id j blank_info (add_cell idx) (set_cell layer idx d).obstacles
    ∙ rw (e, set_cell-obstacles layer idx d) refl

-- Insertion changes no other entry.
pub insert-others :
    (id j : ℕ) (layer : ObstacleLayer) (cells : List ℕ) (d : GridMapData)
    → (id == j) ≡ false
    → lookup j (insert id layer cells d).obstacles ≡ lookup j d.obstacles
unfolding insert
insert-others id j layer cells d e =
    let info : ObstacleInfo = record { occupied_cells = []; layer = layer } in
    rasterize-others id j layer cells _ e
    ∙ lookup-update id j info (λ _. info) (freed id d).obstacles
    ∙ rw (e, freed-obstacles id d) (lookup-erase id j d.obstacles ∙ rw e refl)
