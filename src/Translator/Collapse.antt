-- ===== src/Translator/Collapse.antt =====
-- The running map of a flush against the order of the updates.
use rises.Base.{
  ◌≡◌, refl, ◌∙◌, inl, inr, List, [], ◌∷◌, ◌++◌, Option, none, some, if◌then◌else◌, ◌==◌, map,
  arith, Bool-cases,
}
use rises.Base.Int.{ℤ, eq_ℤ, eq_ℤ_iff}
use rises.Base.Dict.{int_keys, lookup, update, erase, lookup-update, lookup-erase}
use rises.Spatial.Batch.{MapUpdate, op_insert}
use rises.Translator.State.{collapse_map, collapse}

module _ {Obstacle : Type 0} where
  -- The last update for an id, if it is an insertion; before the first one, what stood before.
  abbrev pub last_insert :
      List (MapUpdate Obstacle) → Option (MapUpdate Obstacle) → ℤ → Option (MapUpdate Obstacle)
  last_insert [] before k = before
  last_insert (u ∷ rest) before k =
      last_insert rest
        (if eq_ℤ u.id k then (if u.operation == op_insert then some u else none) else before) k

  pub last_insert-append :
      (us vs : List (MapUpdate Obstacle)) (before : Option (MapUpdate Obstacle)) (k : ℤ)
      → last_insert (us ++ vs) before k ≡ last_insert vs (last_insert us before k) k
  last_insert-append [] vs before k = refl
  last_insert-append (u ∷ us) vs before k = last_insert-append us vs _ k

  pub lookup-collapse_map :
      (us : List (MapUpdate Obstacle)) (m : List (ℤ × MapUpdate Obstacle)) (k : ℤ)
      → lookup k (collapse_map us m) ≡ last_insert us (lookup k m) k
  unfolding collapse_map
  lookup-collapse_map [] m k = refl
  lookup-collapse_map (u ∷ rest) m k = elim (Bool-cases (u.operation == op_insert)) [
    | inl e ↦
        rw (collapse_map, e)
          (lookup-collapse_map rest (update u.id u (λ _. u) m) k
            ∙ rw (lookup-update u.id k u (λ _. u) m) refl)
    | inr e ↦
        rw (collapse_map, e)
          (lookup-collapse_map rest (erase u.id m) k ∙ rw (lookup-erase u.id k m) refl)
  ]

  -- Each id once, with an insertion of it.
  abbrev pub IsMap : List (ℤ × MapUpdate Obstacle) → Type 0
  IsMap [] = Unit
  IsMap ((k, u) ∷ m) = (lookup k m ≡ none) × (u.id ≡ k) × (u.operation ≡ op_insert) × IsMap m

  update-IsMap :
      (u : MapUpdate Obstacle) (m : List (ℤ × MapUpdate Obstacle))
      → u.operation ≡ op_insert
      → IsMap m
      → IsMap (update u.id u (λ _. u) m)
  unfolding update lookup
  update-IsMap u [] e h = (refl, refl, e, tt)
  update-IsMap u ((k, v) ∷ m) e h = elim (Bool-cases (eq_ℤ k u.id)) [
    | inl same ↦ rw same (h.0, ground (arith, eq_ℤ_iff k u.id), e, h.3)
    | inr other ↦ rw other (
      ground (arith, lookup-update u.id k u (λ _. u) m, eq_ℤ_iff u.id k, eq_ℤ_iff k u.id),
      h.1,
      h.2,
      update-IsMap u m e h.3,
    )
  ]

  erase-IsMap : (id : ℤ) (m : List (ℤ × MapUpdate Obstacle)) → IsMap m → IsMap (erase id m)
  unfolding erase
  erase-IsMap id [] h = tt
  erase-IsMap id ((k, v) ∷ m) h = elim (Bool-cases (eq_ℤ k id)) [
    | inl same ↦ rw same (erase-IsMap id m h.3)
    | inr other ↦ rw other (ground (arith, lookup-erase id k m), h.1, h.2, erase-IsMap id m h.3)
  ]

  pub collapse_map-IsMap :
      (us : List (MapUpdate Obstacle)) (m : List (ℤ × MapUpdate Obstacle))
      → IsMap m
      → IsMap (collapse_map us m)
  unfolding collapse_map
  collapse_map-IsMap [] m h = h
  collapse_map-IsMap (u ∷ rest) m h = elim (Bool-cases (u.operation == op_insert)) [
    | inl e ↦
        rw (collapse_map, e)
          (collapse_map-IsMap rest (update u.id u (λ _. u) m) (update-IsMap u m (ground arith) h))
    | inr e ↦ rw (collapse_map, e) (collapse_map-IsMap rest (erase u.id m) (erase-IsMap u.id m h))
  ]

  abbrev pub or_before :
      Option (MapUpdate Obstacle) → Option (MapUpdate Obstacle) → Option (MapUpdate Obstacle)
  or_before before none = before
  or_before before (some u) = some u

  pub last_insert-map :
      (m : List (ℤ × MapUpdate Obstacle)) (before : Option (MapUpdate Obstacle)) (k : ℤ)
      → IsMap m
      → last_insert (map (λ entry. entry.1) m) before k ≡ or_before before (lookup k m)
  unfolding lookup
  last_insert-map [] before k h = refl
  last_insert-map ((j, u) ∷ m) before k h =
      last_insert-map m _ k h.3 ∙ ground (arith, eq_ℤ_iff j k, eq_ℤ_iff u.id k)

  -- What the collapsed updates say of an id: the last update, where it is an insertion.
  pub last_insert-collapse :
      (us : List (MapUpdate Obstacle)) (before : Option (MapUpdate Obstacle)) (k : ℤ)
      → last_insert (collapse us) before k ≡ or_before before (last_insert us none k)
  unfolding collapse lookup
  last_insert-collapse us before k =
      last_insert-map (collapse_map us []) before k (collapse_map-IsMap us [] tt)
      ∙ ground (arith, lookup-collapse_map us [] k)

  -- Updates that were collapsed before give, together with later ones, for each id what all the
  -- updates give at once.
  pub collapse-retry :
      (us vs : List (MapUpdate Obstacle)) (k : ℤ)
      → lookup k (collapse_map (collapse us ++ vs) []) ≡ lookup k (collapse_map (us ++ vs) [])
  unfolding lookup
  collapse-retry us vs k =
      lookup-collapse_map (collapse us ++ vs) [] k
      ∙ ground (
        arith,
        lookup-collapse_map (us ++ vs) [] k,
        last_insert-append (collapse us) vs none k,
        last_insert-append us vs none k,
        last_insert-collapse us none k,
      )
