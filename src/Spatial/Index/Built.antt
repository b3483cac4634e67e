-- ===== src/Spatial/Index/Built.antt =====
-- The tree of the spatial index: built before an index is published, and what a query finds in it.
use rises.Base.{
  ℕ, ◌≡◌, refl, inl, inr, true, false, List, [], ◌∷◌, Option, none, some, get_elem?, All,
  Bool-cases, Option-cases,
}
use rises.Base.Int.{ℤ}
use rises.Base.Dict.{int_keys, lookup}
use rises.Spatial.Shapes.{Shapes, Box}
use rises.Spatial.Index.{Slot, NanoflannAdapter, insert, remove, clone, ensure_built, ids_at, query}
use rises.Spatial.Index.Slots.{IsIndexed}

module _ {Float : Type 0} where
  -- The tree of the points, `none` where there are none.
  abbrev pub tree_of : List (Slot Float) → Option (List (Slot Float))
  tree_of [] = none
  tree_of (s ∷ rest) = some (s ∷ rest)

  -- The tree is that of the present points.
  pub record IsBuilt (t : NanoflannAdapter Float) : Type 0 where
    pub fresh : t.needs_rebuild ≡ false
    pub built : t.kdtree ≡ tree_of t.points

  -- A copy that is not published yet.
  pub record IsPrivate (t : NanoflannAdapter Float) : Type 0 where
    pub stale : t.needs_rebuild ≡ true
    pub bare : t.kdtree ≡ none

module _ (S : Shapes) where
  open S use {Float}

  pub clone-IsPrivate : (t : NanoflannAdapter Float) → IsPrivate (clone S t)
  unfolding clone
  clone-IsPrivate t = record { stale = refl; bare = refl }

  pub insert-IsPrivate :
      (id : ℤ) (bbox : Box S) (t : NanoflannAdapter Float)
      → IsPrivate t
      → IsPrivate (insert S id bbox t)
  unfolding insert
  insert-IsPrivate id bbox t h = record { stale = refl; bare = h.bare }

  pub remove-IsPrivate :
      (id : ℤ) (t : NanoflannAdapter Float) → IsPrivate t → IsPrivate (remove S id t)
  unfolding remove
  remove-IsPrivate id t h = elim (Option-cases (lookup id t.id_to_index)) [
    | inl e ↦ rw (remove, e) h
    | inr (idx, e) ↦ rw (remove, e) (record { stale = refl; bare = h.bare })
  ]

  -- A copy that is built before it is published has the tree of its points.
  pub ensure_built-IsBuilt : (t : NanoflannAdapter Float) → IsPrivate t → IsBuilt (ensure_built S t)
  unfolding ensure_built
  ensure_built-IsBuilt t h = go t.points refl
    where
      go : (points : List (Slot Float)) → t.points ≡ points → IsBuilt (ensure_built S t)
      go [] e = rw (ensure_built, h.stale, e) (record { fresh = refl; built = rw e h.bare })
      go (s ∷ rest) e = rw (ensure_built, h.stale, e) (record { fresh = refl; built = rw e refl })

  -- To build the tree changes neither the points nor their indices.
  pub ensure_built-points :
      (t : NanoflannAdapter Float)
      → ((ensure_built S t).points ≡ t.points) × ((ensure_built S t).id_to_index ≡ t.id_to_index)
  unfolding ensure_built
  ensure_built-points t = go t.points refl
    where
      go :
          (points : List (Slot Float))
          → t.points ≡ points
          → ((ensure_built S t).points ≡ t.points)
            × ((ensure_built S t).id_to_index ≡ t.id_to_index)
      go [] e = elim (Bool-cases t.needs_rebuild) [
        | inl n ↦ rw (ensure_built, n, e) (e, refl)
        | inr n ↦ rw (ensure_built, n) (refl, refl)
      ]
      go (s ∷ rest) e = elim (Bool-cases t.needs_rebuild) [
        | inl n ↦ rw (ensure_built, n, e) (e, refl)
        | inr n ↦ rw (ensure_built, n) (refl, refl)
      ]

  ids_at-lookup :
      (t : NanoflannAdapter Float) (found : List ℕ)
      → IsIndexed t
      → All (λ k. (i : ℕ) × (lookup k t.id_to_index ≡ some i)) (ids_at S t.points found)
  unfolding ids_at
  ids_at-lookup t [] inv = tt
  ids_at-lookup t (i ∷ rest) inv = elim (Option-cases (get_elem? t.points i)) [
    | inl e ↦ rw (ids_at, e) (ids_at-lookup t rest inv)
    | inr (s, e) ↦ rw (ids_at, e) ((i, inv.placed i s e), ids_at-lookup t rest inv)
  ]

  -- The ids that a query gives are those of points.
  pub query-lookup :
      (radius_search : List (Slot Float) → Float → Float → Float → List ℕ) (bbox : Box S)
      (t : NanoflannAdapter Float)
      → IsIndexed t
      → All (λ k. (i : ℕ) × (lookup k t.id_to_index ≡ some i)) (query S radius_search bbox t)
  unfolding query
  query-lookup radius_search bbox t inv = elim (Option-cases t.kdtree) [
    | inl e ↦ rw (query, e) tt
    | inr (tree, e) ↦ rw (query, e) (ids_at-lookup t _ inv)
  ]
