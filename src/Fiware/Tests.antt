-- ===== src/Fiware/Tests.antt =====
-- A grid of six cells, pallets of one number each, and a status that tries to set its level.
use rises.Base.{ℕ, ◌≡◌, List, [], ◌∷◌, Option, none, some}
use rises.Base.Int.{ℤ, pos, negsuc}
use rises.Base.Strings.{bytes}
use rises.Base.Dict.{text_keys, int_keys, lookup}
use rises.Spatial.Batch.{MapUpdate}
use rises.Fiware.Pallets.{Event, updates_at, trigger}
use rises.Fiware.Health.{HealthStatus, number, string, node_info, node_info-reserved}

abbrev six_cells : List ℤ
six_cells = pos 0 ∷ pos 12 ∷ negsuc 0 ∷ pos 3 ∷ pos 90 ∷ pos 0 ∷ []

abbrev forged : HealthStatus
forged = record {
  name = bytes "safety: halt";
  level = 2;
  message = bytes "silent";
  values = (bytes "level", bytes "0") ∷ (bytes "rate", bytes "5") ∷ [];
}

node_info-reserved_example :
    (lookup (bytes "level") (node_info forged) ≡ some (number 2))
    × (lookup (bytes "message") (node_info forged) ≡ some (string (bytes "silent")))
    × (lookup (bytes "name") (node_info forged) ≡ none)
    × (lookup (bytes "hardware_id") (node_info forged) ≡ none)
node_info-reserved_example = node_info-reserved forged

abbrev width_of : ℕ → ℕ
width_of n = n

abbrev stored : ℕ → MapUpdate ℕ
stored n = record { operation = 0; id = pos n; obstacle = n }

abbrev shift_start : List (Event ℕ)
shift_start =
    updates_at 3000000000 (stored 1 ∷ stored 2 ∷ [])
    ∷ updates_at 3500000000 (stored 4 ∷ [])
    ∷ trigger
    ∷ []

-- The file has pallet 2 at another place, and pallet 9.
abbrev pallets_file : Option (List (ℤ × ℕ))
pallets_file = some ((pos 2, 7) ∷ (pos 9, 9) ∷ [])
