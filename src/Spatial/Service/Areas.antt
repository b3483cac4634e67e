-- ===== src/Spatial/Service/Areas.antt =====
-- Locking and unlocking of areas, and what the state service says of them.
use rises.Base.{
  ◌≡◌, refl, inl, inr, true, false, not, ◌&&◌, ◌||◌, List, [], ◌∷◌, some, keep, arith, Bool-cases,
}
use rises.Base.Int.{ℤ, eq_ℤ, eq_ℤ_iff}
use rises.Spatial.Shapes.{BoundingBox, Shapes}
use rises.Spatial.Geofence.{
  Snapshot, contains, is_negative, private_copy, publish, update_snapshot, put_area,
  is_ordered_area, is_finite_area, register_area, add_lock, drop_lock, lock_area, unlock_area,
  is_area_locked, get_all_obstacle_ids,
}
use rises.Spatial.Service.{returned, narrowed, area_state_service, get_area_state_service}

contains-keep :
    (id k : ℤ) (ids : List ℤ)
    → contains k (keep (λ j. not (eq_ℤ id j)) ids) ≡ (not (eq_ℤ id k) && contains k ids)
contains-keep id k [] = ground arith
contains-keep id k (j ∷ ids) =
    ground (arith, contains-keep id k ids, eq_ℤ_iff id j, eq_ℤ_iff id k, eq_ℤ_iff k j)

module _ (S : Shapes) where
  open S use {Double}

  -- To lock an area locks it and no other; the map changes in nothing else that a reader sees.
  pub lock_area-locked :
      (id k : ℤ) (snap after : Snapshot S)
      → lock_area S id snap ≡ some after
      → is_area_locked S k after ≡ (eq_ℤ id k || is_area_locked S k snap)
  unfolding lock_area update_snapshot publish add_lock private_copy
  lock_area-locked id k snap after e = elim (Bool-cases (is_negative id)) [
    | inl n ↦ ground arith
    | inr n ↦ elim (Bool-cases (contains id snap.locked_areas)) [
      | inl c ↦ ground (arith, eq_ℤ_iff id k)
      | inr c ↦ ground (arith, eq_ℤ_iff id k, eq_ℤ_iff k id)
    ]
  ]

  pub unlock_area-locked :
      (id k : ℤ) (snap after : Snapshot S)
      → unlock_area S id snap ≡ some after
      → is_area_locked S k after ≡ (not (eq_ℤ id k) && is_area_locked S k snap)
  unfolding unlock_area update_snapshot publish drop_lock private_copy
  unlock_area-locked id k snap after e = elim (Bool-cases (is_negative id)) [
    | inl n ↦ ground arith
    | inr n ↦ ground (arith, contains-keep id k snap.locked_areas)
  ]

  -- A request to lock, for an id that is not negative and corners that are ordered and finite as
  -- floats, is answered with success: the map then holds the area as locked, and the same obstacles.
  pub area_state_service-locks :
      (id : ℤ) (area : BoundingBox Double) (snap : Snapshot S)
      → is_negative id ≡ false
      → (is_ordered_area S (narrowed S area) && is_finite_area S (narrowed S area)) ≡ true
      → (after : Snapshot S) × (area_state_service S
            (record { area_id = id; lock = true; area = area })
            (some snap)
          ≡ (returned true, some after))
        × ((k : ℤ) → is_area_locked S k after ≡ (eq_ℤ id k || is_area_locked S k snap))
        × (get_all_obstacle_ids S after ≡ get_all_obstacle_ids S snap)
  unfolding area_state_service register_area lock_area update_snapshot publish put_area private_copy
      add_lock
  area_state_service-locks id area snap n h =
      let registered = update_snapshot S (put_area S id (narrowed S area)) snap in
      let after = update_snapshot S (add_lock S id) registered in
      let locked : lock_area S id registered ≡ some after = rw n refl in
      (after, rw (n, h, locked) refl, λ k. lock_area-locked id k registered after locked, refl)

  -- After such a request the state service does not find the area, unless an obstacle has its id.
  pub get_area_state-not_found :
      (id : ℤ) (area : BoundingBox Double) (snap : Snapshot S)
      → is_negative id ≡ false
      → (is_ordered_area S (narrowed S area) && is_finite_area S (narrowed S area)) ≡ true
      → contains id (get_all_obstacle_ids S snap) ≡ false
      → let served =
          area_state_service S (record { area_id = id; lock = true; area = area }) (some snap) in
        get_area_state_service S id served.1 ≡ (false, false)
  unfolding get_area_state_service
  get_area_state-not_found id area snap n h absent =
      let (after, e, locked, same) = area_state_service-locks id area snap n h in
      rw e (ground arith)
