-- ===== src/Spatial/Index/Removal.antt =====
-- The removal from the spatial index, by a swap with the last point.
use rises.Base.{
  ℕ, ◌-◌, ◌<◌, ◌≡◌, refl, inl, inr, false, ◌==◌, List, none, some, if◌then◌else◌, ltb, length,
  get_elem?, set, arith, Bool-cases, Option-cases, get_elem?_bound, get_elem?-take, get_elem?-set,
  get_elem?_total,
}
use rises.Base.Int.{ℤ, eq_ℤ, eq_ℤ_iff}
use rises.Base.Dict.{int_keys, lookup, update, lookup-update, lookup-erase}
use rises.Spatial.Shapes.{Shapes}
use rises.Spatial.Index.{Slot, NanoflannAdapter, swap_out, reindex, remove}
use rises.Spatial.Index.Slots.{find_slot, IsIndexed}

module _ (S : Shapes) where
  open S use {Float}

  -- Which point stands where after the swap.
  pub get_elem?-swap_out :
      (idx last : ℕ) (points : List (Slot Float)) (moved : Slot Float) (i : ℕ)
      → idx < length points
      → get_elem? points last ≡ some moved
      → get_elem? (swap_out S idx last points) i
        ≡ (if ltb i last then (if idx == i then some moved else get_elem? points i) else none)
  unfolding swap_out
  get_elem?-swap_out idx last points moved i h e = ground (
    arith,
    get_elem?-take last points i,
    get_elem?-take last (set points idx moved) i,
    get_elem?-set points idx moved i,
  )

  -- Which index an id has after the swap.
  pub lookup-reindex :
      (id : ℤ) (idx last : ℕ) (points : List (Slot Float)) (index : List (ℤ × ℕ))
      (moved : Slot Float) (k : ℤ)
      → get_elem? points last ≡ some moved
      → lookup moved.id index ≡ some last
      → lookup k (reindex S id idx last points index)
        ≡ (if eq_ℤ id k then none else if eq_ℤ moved.id k then some idx else lookup k index)
  unfolding reindex
  lookup-reindex id idx last points index moved k e p = ground (
    arith,
    lookup-erase id k index,
    lookup-erase id k (update moved.id 0 (λ _. idx) index),
    lookup-update moved.id k 0 (λ _. idx) index,
    eq_ℤ_iff moved.id k,
  )

  remove-none :
      (id : ℤ) (t : NanoflannAdapter Float) → lookup id t.id_to_index ≡ none → remove S id t ≡ t
  unfolding remove
  remove-none id t e = rw (remove, e)

  -- The last point of an index that has one.
  last_point :
      (t : NanoflannAdapter Float) (i : ℕ)
      → i < length t.points
      → (moved : Slot Float) × (get_elem? t.points (length t.points - 1) ≡ some moved)
  last_point t i h = get_elem?_total t.points (length t.points - 1) (omega arith)

  remove-pieces :
      (id : ℤ) (t : NanoflannAdapter Float) (idx : ℕ)
      → lookup id t.id_to_index ≡ some idx
      → ((remove S id t).points ≡ swap_out S idx (length t.points - 1) t.points)
        × ((remove S id t).id_to_index
            ≡ reindex S id idx (length t.points - 1) t.points t.id_to_index)
  unfolding remove
  remove-pieces id t idx e = rw (remove, e) (refl, refl)

  -- An entry of the indices after a removal, for a removed id that stood at `idx`.
  remove_pointing :
      (id : ℤ) (t : NanoflannAdapter Float)
      → IsIndexed t
      → (idx : ℕ) (moved : Slot Float) (k : ℤ) (i : ℕ) → lookup id t.id_to_index ≡ some idx
      → get_elem? t.points (length t.points - 1) ≡ some moved
      → eq_ℤ id k ≡ false
      → (if eq_ℤ moved.id k then some idx else lookup k t.id_to_index) ≡ some i
      → (remove S id t).points ≡ swap_out S idx (length t.points - 1) t.points
      → (s : Slot Float) × (get_elem? (remove S id t).points i ≡ some s) × (s.id ≡ k)
  remove_pointing id t inv idx moved k i e end other h pe =
      let (gone, at, same) = inv.pointing id idx e in
      let bound = get_elem?_bound t.points idx at in
      let last = length t.points - 1 in
      elim (Bool-cases (eq_ℤ moved.id k)) [
        | inl m ↦ (
          moved,
          rw pe (
              ground (
                arith,
                get_elem?-swap_out idx last t.points moved i bound end,
                eq_ℤ_iff id k,
                eq_ℤ_iff moved.id k,
              )),
          ground (arith, eq_ℤ_iff moved.id k),
        )
        | inr m ↦
            let (s, there, own) = inv.pointing k i (ground arith) in
            (
              s,
              rw pe (
                  ground (
                    arith,
                    get_elem?-swap_out idx last t.points moved i bound end,
                    get_elem?_bound t.points i there,
                    eq_ℤ_iff id k,
                    eq_ℤ_iff moved.id k,
                  )),
              own,
            )
      ]

  -- A removal keeps the index of the ids.
  pub remove-IsIndexed :
      (id : ℤ) (t : NanoflannAdapter Float) → IsIndexed t → IsIndexed (remove S id t)
  remove-IsIndexed id t inv = elim (Option-cases (lookup id t.id_to_index)) [
    | inl n ↦ rw (remove-none id t n) inv
    | inr (idx, e) ↦
        let (gone, at, same) = inv.pointing id idx e in
        let bound = get_elem?_bound t.points idx at in
        let (moved, end) = last_point t idx bound in
        let last = length t.points - 1 in
        let here = inv.placed last moved end in
        let (pe, ie) = remove-pieces id t idx e in
        record {
          placed = λ i s h. rw ie (
              ground (
                arith,
                get_elem?-swap_out idx last t.points moved i bound end,
                pe,
                lookup-reindex id idx last t.points t.id_to_index moved s.id end here,
                inv.placed i s,
                eq_ℤ_iff id s.id,
                eq_ℤ_iff moved.id s.id,
              ));
          pointing = λ k i h.
              remove_pointing id t inv idx moved k i e end
                (ground
                  (arith, ie, lookup-reindex id idx last t.points t.id_to_index moved k end here))
                (ground
                  (arith, ie, lookup-reindex id idx last t.points t.id_to_index moved k end here))
                pe;
        }
  ]

  -- After a removal the index has nothing for the id, and for the others what it had.
  pub find_slot-remove :
      (id k : ℤ) (t : NanoflannAdapter Float)
      → IsIndexed t
      → find_slot k (remove S id t) ≡ (if eq_ℤ id k then none else find_slot k t)
  find_slot-remove id k t inv = elim (Option-cases (lookup id t.id_to_index)) [
    | inl n ↦ rw (remove-none id t n) (ground (arith, eq_ℤ_iff id k))
    | inr (idx, e) ↦
        let (gone, at, same) = inv.pointing id idx e in
        let bound = get_elem?_bound t.points idx at in
        let (moved, end) = last_point t idx bound in
        let last = length t.points - 1 in
        let here = inv.placed last moved end in
        let (pe, ie) = remove-pieces id t idx e in
        elim (Option-cases (lookup k t.id_to_index)) [
          | inl n ↦ rw ie (
              ground (
                arith,
                lookup-reindex id idx last t.points t.id_to_index moved k end here,
                eq_ℤ_iff moved.id k,
              ))
          | inr (i, old) ↦
              let (s, there, own) = inv.pointing k i old in
              rw (ie, pe)
                (ground (
                  arith,
                  lookup-reindex id idx last t.points t.id_to_index moved k end here,
                  get_elem?-swap_out idx last t.points moved i bound end,
                  get_elem?-swap_out idx last t.points moved idx bound end,
                  get_elem?_bound t.points i there,
                  eq_ℤ_iff id k,
                  eq_ℤ_iff moved.id k,
                ))
        ]
  ]
