-- ===== src/Fiware/Health.antt =====
-- `diagCallback`: the JSON object of each node, and the keys that it can have.
use rises.Base.{
  ℕ, ◌≡◌, refl, inl, inr, Bool, true, false, ◌||◌, List, [], ◌∷◌, none, some, if◌then◌else◌, length,
  ltb, ◌==◌, any, Text, text_eq, text_eq_iff, arith, Bool-cases,
}
use rises.Base.Strings.{bytes}
use rises.Base.Dict.{text_keys, lookup, update, lookup-update}

-- A value of a JSON object: a number or a text.
pub data JsonValue : Type 0 where
  number : ℕ → JsonValue
  string : Text → JsonValue

pub record HealthStatus : Type 0 where
  pub name : Text
  pub level : ℕ
  pub message : Text
  pub values : List (Text × Text)

abbrev pub reserved_diag_keys : List Text
reserved_diag_keys = bytes "level" ∷ bytes "message" ∷ bytes "name" ∷ bytes "hardware_id" ∷ []

unfoldable pub is_reserved_diag_key : Text → Bool
is_reserved_diag_key key = any (λ reserved. text_eq key reserved) reserved_diag_keys

unfoldable pub contains_control_byte : Text → Bool
contains_control_byte s = any (λ c. ltb c 32 || c == 127) s

abbrev pub max_diag_key_len : ℕ
max_diag_key_len = 64

abbrev pub max_diag_value_len : ℕ
max_diag_value_len = 1024

unfoldable pub is_diag_key_acceptable : Text → Text → Bool
is_diag_key_acceptable key value =
    if length key == 0
    then false
    else if ltb max_diag_key_len (length key) || ltb max_diag_value_len (length value)
    then false
    else if is_reserved_diag_key key
    then false
    else if contains_control_byte key
    then false
    else true

-- The loop over the values of a status.
unfoldable pub add_values : List (Text × Text) → List (Text × JsonValue) → List (Text × JsonValue)
add_values [] info = info
add_values ((key, value) ∷ rest) info = add_values rest (
    if is_diag_key_acceptable key value
    then update key (string value) (λ _. string value) info
    else info)

unfoldable pub node_info : HealthStatus → List (Text × JsonValue)
node_info status =
    add_values status.values
      ((bytes "level", number status.level) ∷ (bytes "message", string status.message) ∷ [])

-- `name.substr(0, name.find(':'))`
unfoldable pub status_node : Text → Text
status_node [] = []
status_node (c ∷ s) = let rest = status_node s in if c == 58 then [] else c ∷ rest

-- The JSON object of a message, in which a later status replaces an earlier one of the same node.
unfoldable pub health_of :
    List HealthStatus
    → List (Text × List (Text × JsonValue))
    → List (Text × List (Text × JsonValue))
health_of [] j = j
health_of (status ∷ rest) j =
    health_of rest (update (status_node status.name) (node_info status) (λ _. node_info status) j)

reserved-not_acceptable :
    (key value : Text) → is_reserved_diag_key key ≡ true → is_diag_key_acceptable key value ≡ false
unfolding is_diag_key_acceptable
reserved-not_acceptable key value h = ground arith

add_values-reserved :
    (key : Text) (values : List (Text × Text)) (info : List (Text × JsonValue))
    → is_reserved_diag_key key ≡ true
    → lookup key (add_values values info) ≡ lookup key info
unfolding add_values
add_values-reserved key [] info h = refl
add_values-reserved key ((k, v) ∷ rest) info h = elim (Bool-cases (is_diag_key_acceptable k v)) [
  | inl a ↦
      rw (add_values, a)
        (rw (add_values-reserved key rest (update k (string v) (λ _. string v) info) h)
          (elim (Bool-cases (text_eq k key)) [
            | inl same ↦ absurd (ground (arith, text_eq_iff k key, reserved-not_acceptable k v))
            | inr other ↦ rw (lookup-update k key (string v) (λ _. string v) info) (ground arith)
          ]))
  | inr a ↦ rw (add_values, a) (add_values-reserved key rest info h)
]

-- Whatever key-value pairs a status carries, the level and the message in the JSON of its node are
-- those of the status, and the reserved keys that it does not set are absent.
pub node_info-reserved :
    (status : HealthStatus)
    → (lookup (bytes "level") (node_info status) ≡ some (number status.level))
      × (lookup (bytes "message") (node_info status) ≡ some (string status.message))
      × (lookup (bytes "name") (node_info status) ≡ none)
      × (lookup (bytes "hardware_id") (node_info status) ≡ none)
unfolding node_info is_reserved_diag_key text_eq lookup
node_info-reserved status =
    let info : List (Text × JsonValue) =
      (bytes "level", number status.level) ∷ (bytes "message", string status.message) ∷ [] in
    (
      add_values-reserved (bytes "level") status.values info refl,
      add_values-reserved (bytes "message") status.values info refl,
      add_values-reserved (bytes "name") status.values info refl,
      add_values-reserved (bytes "hardware_id") status.values info refl,
    )
