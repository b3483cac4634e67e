-- ===== src/Spatial/Index/Slots.antt =====
-- The spatial index as a map from ids to slots.
use rises.Base.{
  ℕ, ◌≡◌, refl, inl, inr, Option, none, some, if◌then◌else◌, length, get_elem?, arith, Bool-cases,
  Option-cases, get_elem?_bound, get_elem?-snoc,
}
use rises.Base.Int.{ℤ, eq_ℤ, eq_ℤ_iff}
use rises.Base.Dict.{int_keys, lookup, lookup-update}
use rises.Spatial.Shapes.{Shapes, Box}
use rises.Spatial.Index.{Slot, NanoflannAdapter, empty_index, slot_of, insert}

module _ {Float : Type 0} where
  -- What the index has for an id.
  abbrev pub find_slot : ℤ → NanoflannAdapter Float → Option (Slot Float)
  find_slot k t = elim (lookup k t.id_to_index) [ none ↦ none | some i ↦ get_elem? t.points i ]

  -- Each point has an id of its own, under which the map of the indices has its place, and the map
  -- has no other entry.
  pub record IsIndexed (t : NanoflannAdapter Float) : Type 0 where
    pub placed :
        (i : ℕ) (s : Slot Float)
        → get_elem? t.points i ≡ some s
        → lookup s.id t.id_to_index ≡ some i
    pub pointing :
        (k : ℤ) (i : ℕ)
        → lookup k t.id_to_index ≡ some i
        → (s : Slot Float) × (get_elem? t.points i ≡ some s) × (s.id ≡ k)

module _ (S : Shapes) where
  open S use {Float}

  pub empty-IsIndexed : IsIndexed (empty_index S)
  unfolding lookup
  empty-IsIndexed = record { placed = λ i s h. cc; pointing = λ k i h. cc }

  slot_of-id : (id : ℤ) (bbox : Box S) → (slot_of S id bbox).id ≡ id
  unfolding slot_of
  slot_of-id id bbox = refl

  -- An id that is not there is added at the end.
  pub insert-IsIndexed :
      (id : ℤ) (bbox : Box S) (t : NanoflannAdapter Float)
      → IsIndexed t
      → lookup id t.id_to_index ≡ none
      → IsIndexed (insert S id bbox t)
  unfolding insert
  insert-IsIndexed id bbox t inv new =
      let slot = slot_of S id bbox in
      record {
        placed = λ i s h. ground (
          arith,
          get_elem?-snoc t.points slot i,
          inv.placed i s,
          slot_of-id id bbox,
          eq_ℤ_iff id s.id,
          lookup-update id s.id 0 (λ _. length t.points) t.id_to_index,
        );
        pointing = λ k i h. elim (Bool-cases (eq_ℤ id k)) [
          | inl e ↦
              let at : i ≡ length t.points =
                ground (arith, lookup-update id k 0 (λ _. length t.points) t.id_to_index) in
              (
                slot,
                ground (arith, get_elem?-snoc t.points slot i),
                ground (arith, eq_ℤ_iff id k, slot_of-id id bbox),
              )
          | inr e ↦
              let old : lookup k t.id_to_index ≡ some i =
                ground (arith, lookup-update id k 0 (λ _. length t.points) t.id_to_index) in
              let (s, here, same) = inv.pointing k i old in
              (
                s,
                ground (arith, get_elem?-snoc t.points slot i, get_elem?_bound t.points i here),
                same,
              )
        ];
      }

  -- After an insertion the index has the new slot for its id, and for the others what it had.
  pub find_slot-insert :
      (id k : ℤ) (bbox : Box S) (t : NanoflannAdapter Float)
      → IsIndexed t
      → find_slot k (insert S id bbox t)
        ≡ (if eq_ℤ id k then some (slot_of S id bbox) else find_slot k t)
  unfolding insert
  find_slot-insert id k bbox t inv =
      let slot = slot_of S id bbox in
      elim (Bool-cases (eq_ℤ id k)) [
        | inl e ↦ ground (
          arith,
          lookup-update id k 0 (λ _. length t.points) t.id_to_index,
          get_elem?-snoc t.points slot (length t.points),
        )
        | inr e ↦ elim (Option-cases (lookup k t.id_to_index)) [
          | inl n ↦ ground (arith, lookup-update id k 0 (λ _. length t.points) t.id_to_index)
          | inr (i, old) ↦
              let (s, here, same) = inv.pointing k i old in
              ground (
                arith,
                lookup-update id k 0 (λ _. length t.points) t.id_to_index,
                get_elem?-snoc t.points slot i,
                get_elem?_bound t.points i here,
              )
        ]
      ]
