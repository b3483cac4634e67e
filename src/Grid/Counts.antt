-- ===== src/Grid/Counts.antt =====
-- How many times the obstacles of a layer occupy a cell.
use rises.Base.{
  ℕ, ◌+◌, ◌≡◌, refl, ap, ◌∙◌, inl, inr, Bool, true, false, not, List, [], ◌∷◌, Option, none, some,
  if◌then◌else◌, ◌==◌, ==_iff, keep, count_if, arith, Bool-cases,
}
use rises.Base.Dict.{lookup, update, erase, lookup-update, lookup-erase, or_new, nat_eq}
use rises.Grid.{ObstacleLayer, fixed, static, dynamic, same_layer, ObstacleInfo}

abbrev pub times : ℕ → List ℕ → ℕ
times i cells = count_if (λ c. c == i) cells

abbrev pub part : ObstacleInfo → ObstacleLayer → ℕ → ℕ
part info l i = if same_layer info.layer l then times i info.occupied_cells else 0

-- The sum over all obstacles.
abbrev pub occupancy : List (ℕ × ObstacleInfo) → ObstacleLayer → ℕ → ℕ
occupancy [] l i = 0
occupancy ((id, info) ∷ m) l i = part info l i + occupancy m l i

-- No id stands twice.
abbrev pub Unique : List (ℕ × ObstacleInfo) → Type 0
Unique [] = Unit
Unique ((id, info) ∷ m) = (lookup id m ≡ none) × Unique m

abbrev pub part_of : Option ObstacleInfo → ObstacleLayer → ℕ → ℕ
part_of none l i = 0
part_of (some info) l i = part info l i

module _ (l : ObstacleLayer) (i : ℕ) where
  pub occupancy-update :
      (id : ℕ) (new : ObstacleInfo) (f : ObstacleInfo → ObstacleInfo) (m : List (ℕ × ObstacleInfo))
      → occupancy (update id new f m) l i + part_of (lookup id m) l i
        ≡ occupancy m l i + part (f (or_new new (lookup id m))) l i
  unfolding lookup update
  occupancy-update id new f [] = omega arith
  occupancy-update id new f ((j, info) ∷ m) = elim (Bool-cases (j == id)) [
    | inl e ↦ rw (e, lookup, update) (omega arith)
    | inr e ↦ rw (e, lookup, update) (omega (arith, occupancy-update id new f m))
  ]

pub erase_missing : (id : ℕ) (m : List (ℕ × ObstacleInfo)) → lookup id m ≡ none → erase id m ≡ m
unfolding lookup erase
erase_missing id [] h = refl
erase_missing id ((j, info) ∷ m) h = elim (Bool-cases (j == id)) [
  | inl e ↦ cc (rw (e, lookup) at h)
  | inr e ↦ rw (e, erase) (ap (λ t. (j, info) ∷ t) (erase_missing id m (rw (e, lookup) at h)))
]

pub occupancy-erase :
    (l : ObstacleLayer) (i id : ℕ) (m : List (ℕ × ObstacleInfo)) {info : ObstacleInfo}
    → Unique m
    → lookup id m ≡ some info
    → occupancy (erase id m) l i + part info l i ≡ occupancy m l i
unfolding lookup erase
occupancy-erase l i id [] u h = cc
occupancy-erase l i id ((j, first) ∷ m) {info} u h = elim (Bool-cases (j == id)) [
  | inl e ↦
      let same : first ≡ info = cc (rw (e, lookup) at h) in
      let names : j ≡ id = (==_iff j id).0 e in
      let rest : erase id m ≡ m = erase_missing id m (rw names at u.0) in
      rw (e, erase, rest, same) (omega arith)
  | inr e ↦ rw (e, erase) (omega (arith, occupancy-erase l i id m u.1 (rw (e, lookup) at h)))
]

pub update-Unique :
    (id : ℕ) (new : ObstacleInfo) (f : ObstacleInfo → ObstacleInfo) (m : List (ℕ × ObstacleInfo))
    → Unique m
    → Unique (update id new f m)
unfolding update lookup
update-Unique id new f [] u = (refl, tt)
update-Unique id new f ((j, info) ∷ m) u = elim (Bool-cases (j == id)) [
  | inl e ↦ rw (e, update) u
  | inr e ↦
      let other : (id == j) ≡ false = ground arith in
      rw (e, update) (lookup-update id j new f m ∙ rw other u.0, update-Unique id new f m u.1)
]

pub erase-Unique : (id : ℕ) (m : List (ℕ × ObstacleInfo)) → Unique m → Unique (erase id m)
unfolding erase
erase-Unique id [] u = tt
erase-Unique id ((j, info) ∷ m) u = elim (Bool-cases (j == id)) [
  | inl e ↦ rw (e, erase) (erase-Unique id m u.1)
  | inr e ↦
      let gone : lookup j (erase id m) ≡ none = lookup-erase id j m ∙ ground (arith, u.0) in
      rw (e, erase) (gone, erase-Unique id m u.1)
]

-- The obstacles of the other layers.
abbrev pub outside : ObstacleLayer → ℕ × ObstacleInfo → Bool
outside layer entry = not (same_layer entry.1.layer layer)

pub lookup-outside :
    (layer : ObstacleLayer) (id : ℕ) (m : List (ℕ × ObstacleInfo))
    → lookup id m ≡ none
    → lookup id (keep (outside layer) m) ≡ none
unfolding lookup
lookup-outside layer id [] h = refl
lookup-outside layer id ((j, info) ∷ m) h = ground (arith, lookup-outside layer id m)

pub keep-Unique :
    (layer : ObstacleLayer) (m : List (ℕ × ObstacleInfo))
    → Unique m
    → Unique (keep (outside layer) m)
keep-Unique layer [] u = tt
keep-Unique layer ((j, info) ∷ m) u = elim (Bool-cases (outside layer (j, info))) [
  | inl e ↦ rw e (lookup-outside layer j m u.0, keep-Unique layer m u.1)
  | inr e ↦ rw e (keep-Unique layer m u.1)
]

same_layer_trans : (a b c : ObstacleLayer) → same_layer a b ≡ true → same_layer a c ≡ same_layer b c
same_layer_trans fixed fixed c e = refl
same_layer_trans static static c e = refl
same_layer_trans dynamic dynamic c e = refl
same_layer_trans _ _ c e = cc

-- A layer that is cleared occupies nothing, and the others keep what they have.
pub occupancy-keep :
    (layer l : ObstacleLayer) (i : ℕ) (m : List (ℕ × ObstacleInfo))
    → occupancy (keep (outside layer) m) l i ≡ (if same_layer layer l then 0 else occupancy m l i)
occupancy-keep layer l i [] = ground arith
occupancy-keep layer l i ((j, info) ∷ m) = ground (
  arith,
  occupancy-keep layer l i m,
  same_layer_trans info.layer layer l,
  same_layer_trans layer info.layer l,
)
