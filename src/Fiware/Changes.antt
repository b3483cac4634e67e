-- ===== src/Fiware/Changes.antt =====
-- The alerts and the readiness: published exactly when they change; and the spacing of a throttle.
use rises.Base.{
  ◌≡◌, refl, sym, ◌∙◌, Bool, true, false, List, [], ◌∷◌, ◌++◌, append_assoc, append-nil,
}
use rises.Fiware.{OnChange, on_change_callback}

unfoldable pub run_changes : List Bool → OnChange → OnChange
run_changes [] s = s
run_changes (value ∷ rest) s = run_changes rest (on_change_callback value s)

-- The values that differ from the one before.
abbrev pub changes_after : Bool → List Bool → List Bool
changes_after before [] = []
changes_after true (true ∷ rest) = changes_after true rest
changes_after true (false ∷ rest) = false ∷ changes_after false rest
changes_after false (true ∷ rest) = true ∷ changes_after true rest
changes_after false (false ∷ rest) = changes_after false rest

abbrev pub changes : List Bool → List Bool
changes [] = []
changes (value ∷ rest) = value ∷ changes_after value rest

run_changes-seen :
    (values : List Bool) (before : Bool) (sent : List Bool)
    → (run_changes values
        (record { is_initialized = true; last_value = before; topic = sent })).topic
      ≡ sent ++ changes_after before values
unfolding run_changes on_change_callback
run_changes-seen [] before sent = sym (append-nil sent)
run_changes-seen (true ∷ rest) true sent = run_changes-seen rest true sent
run_changes-seen (false ∷ rest) true sent =
    run_changes-seen rest false (sent ++ false ∷ []) ∙ append_assoc sent (false ∷ []) _
run_changes-seen (true ∷ rest) false sent =
    run_changes-seen rest true (sent ++ true ∷ []) ∙ append_assoc sent (true ∷ []) _
run_changes-seen (false ∷ rest) false sent = run_changes-seen rest false sent

abbrev pub unseen : OnChange
unseen = record { is_initialized = false; last_value = false; topic = [] }

-- The values published are the first one and each that differs from the one before it.
pub run_changes-topic : (values : List Bool) → (run_changes values unseen).topic ≡ changes values
unfolding run_changes on_change_callback
run_changes-topic [] = refl
run_changes-topic (value ∷ rest) = run_changes-seen rest value (value ∷ [])
