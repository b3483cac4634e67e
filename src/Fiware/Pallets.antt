-- ===== src/Fiware/Pallets.antt =====
-- The pallets that the context broker is shown.
use rises.Base.{
  ℕ, ◌-◌, ◌≡◌, count_if, true, false, List, [], ◌∷◌, ◌++◌, Option, none, some, if◌then◌else◌, ltb,
  ◌==◌, arith,
}
use rises.Base.Int.{ℤ, eq_ℤ}
use rises.Base.Dict.{int_keys}
use rises.Spatial.Batch.{MapUpdate, op_delete}
use rises.Fiware.{
  PalletMessage, PalletMap, two_seconds, message_of, dds_trigger, load_pallets,
  map_updates_callback,
}

pub data Event (Obstacle : Type 0) : Type 0 where
  updates_at : ℕ → List (MapUpdate Obstacle) → Event Obstacle
  trigger : Event Obstacle

module _ {Aabb Rectangle : Type 0} (rounded : Aabb → Rectangle) where
  abbrev pub no_pallets : PalletMap Aabb Rectangle
  no_pallets = record {
    pallet_map = [];
    pallet_map_dirty = false;
    last_pallet_push_time = 0;
    map_obstacles_topic = [];
  }

  -- The pallets of a new node, which reads a file of them or not.
  abbrev pub initial : Option (List (ℤ × Aabb)) → PalletMap Aabb Rectangle
  initial none = no_pallets
  initial (some entries) = load_pallets rounded entries no_pallets

  -- The last message, an empty one before the first.
  abbrev pub last_shown : List (PalletMessage Rectangle) → PalletMessage Rectangle
  last_shown [] = message_of rounded []
  last_shown (shown ∷ []) = shown
  last_shown (shown ∷ next ∷ rest) = last_shown (next ∷ rest)

  -- What is not dirty has been shown.
  abbrev pub IsShown : PalletMap Aabb Rectangle → Type 0
  IsShown s =
      (if s.pallet_map_dirty
        then message_of rounded s.pallet_map
        else last_shown s.map_obstacles_topic)
      ≡ message_of rounded s.pallet_map

  -- The last entry of a file for an id.
  abbrev pub last_entry : List (ℤ × Aabb) → Option Aabb → ℤ → Option Aabb
  last_entry [] before k = before
  last_entry ((id, aabb) ∷ rest) before k =
      last_entry rest (if eq_ℤ id k then some aabb else before) k

  abbrev pub in_file : Option (List (ℤ × Aabb)) → ℤ → Option Aabb
  in_file none k = none
  in_file (some entries) k = last_entry entries none k

  -- How many pallets have an id.
  abbrev pub pallets_with : ℤ → List (ℤ × Aabb) → ℕ
  pallets_with k = count_if (λ entry. eq_ℤ k entry.0)

module _ {Obstacle Aabb Rectangle : Type 0} (aabb_of : Obstacle → Aabb)
    (rounded : Aabb → Rectangle) where
  unfoldable pub handle_event : Event Obstacle → PalletMap Aabb Rectangle → PalletMap Aabb Rectangle
  handle_event (updates_at now updates) s = map_updates_callback aabb_of rounded now updates s
  handle_event trigger s = dds_trigger rounded s

  unfoldable pub run : List (Event Obstacle) → PalletMap Aabb Rectangle → PalletMap Aabb Rectangle
  run [] s = s
  run (e ∷ rest) s = run rest (handle_event e s)

  -- The box of an id after updates, from the box before.
  abbrev pub replayed : List (MapUpdate Obstacle) → Option Aabb → ℤ → Option Aabb
  replayed [] before k = before
  replayed (u ∷ rest) before k =
      replayed rest
        (if eq_ℤ u.id k
          then (if u.operation == op_delete then none else some (aabb_of u.obstacle))
          else before)
        k

  -- All the updates of a run, in order.
  abbrev pub updates_in : List (Event Obstacle) → List (MapUpdate Obstacle)
  updates_in [] = []
  updates_in (updates_at now updates ∷ rest) = updates ++ updates_in rest
  updates_in (trigger ∷ rest) = updates_in rest

  -- Updates that come within two seconds of the last push are not published: the message shown
  -- stays, and the change waits for another update or a trigger.
  pub map_updates-throttled :
      (now : ℕ) (updates : List (MapUpdate Obstacle)) (s : PalletMap Aabb Rectangle)
      → ltb (now - s.last_pallet_push_time) two_seconds ≡ true
      → let after = map_updates_callback aabb_of rounded now updates s in
        (after.map_obstacles_topic ≡ s.map_obstacles_topic)
        × (after.pallet_map_dirty ≡ true)
        × (after.last_pallet_push_time ≡ s.last_pallet_push_time)
  unfolding map_updates_callback
  map_updates-throttled now updates s h = ground arith
