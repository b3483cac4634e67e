-- ===== src/Safety/Tests.antt =====
-- The node on a few events. Poses are cells, and obstacles are numbers.
use rises.Base.{
  ℕ, ◌*◌, ◌≡◌, refl, ◌↔◌, Bool, true, false, not, ◌&&◌, ◌||◌, List, [], ◌∷◌, ◌++◌, some, arith,
  if◌then◌else◌, text_eq,
}
use rises.Base.Dict.{update, text_keys}
use rises.Base.Int.{ℤ, pos, negsuc, to_int}
use rises.Safety.{
  Response, Reason, DiagnosticStatus, OccupancyGrid, Safety, Event, diagnostics, health_check,
  heatmap, incoming_path, answer, node_name, start, respond, halt_system, resume_system, on_status,
  diagnostics_callback, is_silent, check_nodes, health_check_callback, heatmap_callback, cell_hot,
  poses_overlap, is_path_overlapping_prediction, path_callback, validation_answer, step, run,
}
use rises.Safety.Halt.{follow, halt_topic_agrees}
use rises.Safety.Overlap.{IsGrid, Touches, Somewhere, poses_overlap-Touches}
use rises.Safety.Paths.{path_callback-requests}

abbrev Node : Type 0
Node = Safety ℕ (ℤ × ℤ)

abbrev itself : OccupancyGrid → ℤ × ℤ → ℤ × ℤ
itself grid cell = cell

abbrev second : ℕ
second = 1000000000

-- Node "g" reports an error.
abbrev failure : DiagnosticStatus
failure = record { level = 2; name = b'g' ∷ b':' ∷ b' ' ∷ b'x' ∷ []; message = b'e' ∷ [] }

abbrev grid : OccupancyGrid
grid = record { width = 2; height = 2; cells = pos 0 ∷ pos 60 ∷ negsuc 0 ∷ pos 10 ∷ [] }

abbrev route : List (ℤ × ℤ)
route = (pos 0, pos 0) ∷ (pos 5, pos 0) ∷ (pos 1, pos 0) ∷ []

abbrev day : List (Event ℕ (ℤ × ℤ))
day =
    heatmap grid
    ∷ incoming_path true route
    ∷ answer false route
    ∷ diagnostics second (failure ∷ [])
    ∷ incoming_path true route
    ∷ health_check (2 * second)
    ∷ incoming_path false route
    ∷ []

abbrev opening : Node
opening = start (10 * second) (pos 50)

day_runs :
    (t : Node) × (run itself day opening ≡ some t)
    × (t.halt_topic ≡ true ∷ false ∷ true ∷ [])
    × (t.requests ≡ route ∷ [])
unfolding run step start heatmap_callback path_callback poses_overlap is_path_overlapping_prediction
    cell_hot validation_answer diagnostics_callback on_status halt_system resume_system
    health_check_callback check_nodes is_silent node_name update text_eq to_int
day_runs = (_, refl, refl, refl)

halt_topic_agrees_example : follow false day_runs.0.halt_topic ≡ some day_runs.0.system_halted
halt_topic_agrees_example = halt_topic_agrees itself (10 * second) (pos 50) day day_runs.1

path_callback-requests_example :
    let t : Node = respond Response.rejected_halted (halt_system Reason.nodes_healthy opening) in
    let s : Node = halt_system Reason.nodes_healthy opening in
    (t.requests ≡ (if not s.system_halted && true then s.requests ++ route ∷ [] else s.requests))
    × (t.system_halted ≡ (s.system_halted || not true))
    × (t.validated_path_topic ≡ s.validated_path_topic)
path_callback-requests_example =
    path_callback-requests itself true route (halt_system Reason.nodes_healthy opening)
      {t = respond Response.rejected_halted (halt_system Reason.nodes_healthy opening)}
      (unfold path_callback halt_system start respond in refl)

grid-IsGrid : IsGrid grid
grid-IsGrid = record { filled = refl; narrow = omega arith; low = omega arith; few = omega arith }

poses_overlap-Touches_example :
    (b : Bool) × (poses_overlap itself grid (pos 50) route ≡ some b)
    × ((b ≡ true) ↔ Somewhere (λ pose. Touches grid (pos 50) (itself grid pose)) route)
poses_overlap-Touches_example = poses_overlap-Touches itself grid (pos 50) route grid-IsGrid
