-- ===== src/Runner/Activation.antt =====
-- internal/orchestrator/resolution.go: which nodes a run skips.
use massive.Base.{String, Option, none, some, List, [], ◌∷◌, not, ◌=ₛ◌, if◌then◌else◌, lookup}
use massive.Journal.Data.{SkipReason}
use massive.Plan.Graph.{GraphNode, GraphEdge, SelectInput}
use massive.Runner.Inputs.{
  Resolver, no_selection, no_input_for_case, inactive_source, Resolved, ok, err, ◌>>=◌, require,
  inbound_of,
}

-- the reason of an edge whose case was not selected
abbrev pub not_selected : GraphEdge → SkipReason
not_selected e = record { kind = "decision-not-selected"; decision_id = e.from; case = e.case }

-- A reason to skip, none to go on, for a case that was looked up.
unfoldable pub case_reason : String → GraphEdge → Option String → Resolved (Option SkipReason)
case_reason id e none = err (no_selection id e.from)
case_reason id e (some selected) =
    ok (if not (selected =ₛ e.case) then some (not_selected e) else none)

unfoldable pub edge_reason : Resolver → String → GraphEdge → Resolved (Option SkipReason)
edge_reason r id e = elim (lookup e.from r.inactive) [
  | some reason ↦ ok (some reason)
  | none ↦ if not (e.case =ₛ "") then case_reason id e (lookup e.from r.selected_cases) else ok none
]

unfoldable pub edges_reason : Resolver → String → List GraphEdge → Resolved (Option SkipReason)
edges_reason r id [] = ok none
edges_reason r id (e ∷ rest) =
    let later = edges_reason r id rest in
    edge_reason r id e >>= λ reason. elim reason [ some found ↦ ok (some found) | none ↦ later ]

-- The source that a select reads must be active.
unfoldable pub source_reason :
    String → SelectInput → Option SkipReason → Resolved (Option SkipReason)
source_reason id input (some reason) = err (inactive_source id reason)
source_reason id input none = ok none

-- the gate's loop over the inputs of a select
unfoldable pub inputs_reason :
    Resolver → String → String → List SelectInput → Resolved (Option SkipReason)
inputs_reason r id selected [] = err (no_input_for_case id selected)
inputs_reason r id selected (i ∷ rest) =
    if not (i.case =ₛ selected)
    then inputs_reason r id selected rest
    else source_reason id i (lookup i.source r.inactive)

unfoldable pub select_reason :
    Resolver → GraphNode → Option SkipReason → Resolved (Option SkipReason)
select_reason r node (some reason) = ok (some reason)
select_reason r node none = do
  selected ←
      require (no_selection node.id node.decision_ref) (lookup node.decision_ref r.selected_cases)
  inputs_reason r node.id selected node.select_inputs

unfoldable pub activation_skip_reason : Resolver → GraphNode → Resolved (Option SkipReason)
activation_skip_reason r node =
    if node.kind =ₛ "select"
    then select_reason r node (lookup node.decision_ref r.inactive)
    else edges_reason r node.id (inbound_of r node)
