-- ===== src/Spatial/Geofence/Consistent.antt =====
-- The spatial index of the obstacles and the table of their entries, under the modifiers.
use rises.Base.{
  ◌≡◌, refl, sym, ◌∙◌, ap, inl, inr, Option, none, some, if◌then◌else◌, get_elem?, arith,
  Option-cases,
}
use rises.Base.Int.{ℤ, eq_ℤ, eq_ℤ_iff}
use rises.Base.Dict.{int_keys, lookup, lookup-update, lookup-erase}
use rises.Spatial.Shapes.{Shapes}
use rises.Spatial.Index.{Slot, NanoflannAdapter, slot_of, clone}
use rises.Spatial.Index.Slots.{
  find_slot, IsIndexed, insert-IsIndexed, find_slot-insert, empty-IsIndexed,
}
use rises.Spatial.Index.Removal.{remove-IsIndexed, find_slot-remove}
use rises.Spatial.Index.Built.{ensure_built-points}
use rises.Spatial.Geofence.{
  GeometryEntry, Snapshot, new_entry, private_copy, publish, update_snapshot, drop_obstacle,
  add_entry, put_obstacle, empty_map,
}

module _ (S : Shapes) where
  open S use {Float, Geometry, get_bounding_box}

  -- The slot that an entry should have.
  abbrev pub slot_for : ℤ → Option (GeometryEntry S) → Option (Slot Float)
  slot_for k none = none
  slot_for k (some entry) = some (slot_of S k entry.bbox)

  -- The index has the slots of the entries, each under its id, and nothing else.
  pub record IsConsistent (snap : Snapshot S) : Type 0 where
    pub indexed : IsIndexed snap.obstacle_tree
    pub agree : (k : ℤ) → find_slot k snap.obstacle_tree ≡ slot_for k (lookup k snap.obstacles)

  absent :
      (snap : Snapshot S) (k : ℤ)
      → IsConsistent snap
      → lookup k snap.obstacles ≡ none
      → lookup k snap.obstacle_tree.id_to_index ≡ none
  absent snap k inv e = elim (Option-cases (lookup k snap.obstacle_tree.id_to_index)) [
    | inl n ↦ n
    | inr (i, p) ↦
        let (s, here, own) = inv.indexed.pointing k i p in absurd (ground (arith, inv.agree k))
  ]

  -- What the table has after the removal of an obstacle.
  pub lookup-drop_obstacle :
      (id k : ℤ) (snap : Snapshot S)
      → lookup k (drop_obstacle S id snap).obstacles
        ≡ (if eq_ℤ id k then none else lookup k snap.obstacles)
  unfolding drop_obstacle
  lookup-drop_obstacle id k snap = elim (Option-cases (lookup id snap.obstacles)) [
    | inl e ↦ rw (drop_obstacle, e) (ground (arith, eq_ℤ_iff id k))
    | inr (entry, e) ↦ rw (drop_obstacle, e) (lookup-erase id k snap.obstacles)
  ]

  pub drop_obstacle-IsConsistent :
      (id : ℤ) (snap : Snapshot S) → IsConsistent snap → IsConsistent (drop_obstacle S id snap)
  unfolding drop_obstacle
  drop_obstacle-IsConsistent id snap inv = elim (Option-cases (lookup id snap.obstacles)) [
    | inl e ↦ rw (drop_obstacle, e) inv
    | inr (entry, e) ↦
        rw (drop_obstacle, e)
          (record {
            indexed = remove-IsIndexed S id snap.obstacle_tree inv.indexed;
            agree = λ k. ground (
              arith,
              find_slot-remove S id k snap.obstacle_tree inv.indexed,
              lookup-erase id k snap.obstacles,
              inv.agree k,
            );
          })
  ]

  add_entry-IsConsistent :
      (id : ℤ) (geom : Geometry) (snap : Snapshot S)
      → IsConsistent snap
      → lookup id snap.obstacles ≡ none
      → IsConsistent (add_entry S id geom snap)
  unfolding add_entry
  add_entry-IsConsistent id geom snap inv new =
      let entry = new_entry S id geom in
      record {
        indexed =
            insert-IsIndexed S id entry.bbox snap.obstacle_tree inv.indexed
              (absent snap id inv new);
        agree = λ k. ground (
          arith,
          find_slot-insert S id k entry.bbox snap.obstacle_tree inv.indexed,
          lookup-update id k entry (λ old. old) snap.obstacles,
          inv.agree k,
          eq_ℤ_iff id k,
        );
      }

  pub lookup-put_obstacle :
      (id k : ℤ) (geom : Geometry) (snap : Snapshot S)
      → lookup k (put_obstacle S id geom snap).obstacles
        ≡ (if eq_ℤ id k then some (new_entry S id geom) else lookup k snap.obstacles)
  unfolding put_obstacle add_entry
  lookup-put_obstacle id k geom snap = ground (
    arith,
    lookup-drop_obstacle id k snap,
    lookup-drop_obstacle id id snap,
    lookup-update id k (new_entry S id geom) (λ old. old) (drop_obstacle S id snap).obstacles,
    eq_ℤ_iff id id,
  )

  pub put_obstacle-IsConsistent :
      (id : ℤ) (geom : Geometry) (snap : Snapshot S)
      → IsConsistent snap
      → IsConsistent (put_obstacle S id geom snap)
  unfolding put_obstacle
  put_obstacle-IsConsistent id geom snap inv =
      add_entry-IsConsistent id geom (drop_obstacle S id snap)
        (drop_obstacle-IsConsistent id snap inv)
        (ground (arith, lookup-drop_obstacle id id snap, eq_ℤ_iff id id))

  -- An index with the same points and indices is as good.
  same-IsIndexed :
      (t u : NanoflannAdapter Float)
      → u.points ≡ t.points
      → u.id_to_index ≡ t.id_to_index
      → IsIndexed t
      → IsIndexed u
  same-IsIndexed t u p q inv = record {
    placed = λ i s h. rw q (inv.placed i s (sym (ap (λ l. get_elem? l i) p) ∙ h));
    pointing = λ k i h. rw p (inv.pointing k i (sym (ap (lookup k) q) ∙ h));
  }

  pub private_copy-IsConsistent :
      (snap : Snapshot S) → IsConsistent snap → IsConsistent (private_copy S snap)
  unfolding private_copy clone
  private_copy-IsConsistent snap inv = record {
    indexed = same-IsIndexed snap.obstacle_tree _ refl refl inv.indexed;
    agree = inv.agree;
  }

  pub publish-IsConsistent : (snap : Snapshot S) → IsConsistent snap → IsConsistent (publish S snap)
  unfolding publish
  publish-IsConsistent snap inv =
      let (p, q) = ensure_built-points S snap.obstacle_tree in
      record {
        indexed = same-IsIndexed snap.obstacle_tree _ p q inv.indexed;
        agree = λ k. rw (p, q) (inv.agree k);
      }

  -- A modifier that keeps the two together keeps them together in the published snapshot.
  pub update_snapshot-IsConsistent :
      (modifier : Snapshot S → Snapshot S)
      → ((snap : Snapshot S) → IsConsistent snap → IsConsistent (modifier snap))
      → (snap : Snapshot S) → IsConsistent snap
      → IsConsistent (update_snapshot S modifier snap)
  unfolding update_snapshot
  update_snapshot-IsConsistent modifier keeps snap inv =
      publish-IsConsistent (modifier (private_copy S snap))
        (keeps (private_copy S snap) (private_copy-IsConsistent snap inv))

  pub empty_map-IsConsistent : IsConsistent (empty_map S)
  unfolding lookup
  empty_map-IsConsistent = record { indexed = empty-IsIndexed S; agree = λ k. refl }
