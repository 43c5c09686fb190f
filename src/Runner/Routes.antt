-- ===== src/Runner/Routes.antt =====
-- internal/orchestrator/resolution.go: decisions choose a case, selects take the value of its branch.
use massive.Base.{String, List, [], ◌∷◌, not, ◌=ₛ◌, if◌then◌else◌, Dict, lookup, get_key, insert}
use massive.MapExec.Collect.{Bytes}
use massive.Plan.Graph.{GraphNode, GraphEdge, DecisionCase, SelectInput}
use massive.Runner.Inputs.{
  Values, NodeOutput, Resolver, not_one_edge, missing_output, wrong_schema, not_object,
  missing_selector, selector_not_text, undeclared_case, unavailable_schema, invalid_case,
  no_selection, no_input_for_case, Resolved, ok, err, ◌>>=◌, require, inbound_of, input_for_node,
}

-- `inbound[0].GetFrom()`, where there is exactly one edge
unfoldable pub only_source : String → List GraphEdge → Resolved String
only_source id [] = err (not_one_edge id)
only_source id (e ∷ []) = ok e.from
only_source id (e ∷ f ∷ rest) = err (not_one_edge id)

module _ (c : Values) where
  open c use {members, text, is_valid}

  unfoldable pub case_schema : GraphNode → String → Bytes → String → Resolved String
  case_schema node tag input schema =
      if schema =ₛ ""
      then err (unavailable_schema node.id tag)
      else (if is_valid schema input then ok tag else err (invalid_case node.id tag))

  unfoldable pub declared_case :
      GraphNode → Dict String → Bytes → String → List DecisionCase → Resolved String
  declared_case node schemas input tag [] = err (undeclared_case node.id)
  declared_case node schemas input tag (d ∷ rest) =
      if not (d.tag =ₛ tag)
      then declared_case node schemas input tag rest
      else case_schema node tag input (get_key "" d.schema schemas)

  unfoldable pub decision_case_for_value : GraphNode → Bytes → Dict String → Resolved String
  decision_case_for_value node input schemas = do
    value ← require (not_object node.id) (members input)
    raw ← require (missing_selector node.id) (lookup node.selector value)
    tag ← require (selector_not_text node.id) (text raw)
    declared_case node schemas input tag node.cases

  unfoldable pub route_decision : Resolver → GraphNode → Resolved (String × Resolver)
  route_decision r node = do
    source ← only_source node.id (inbound_of r node)
    bytes ← input_for_node c r node
    input ← require (missing_output source node.id) (lookup source r.outputs)
    tag ←
        (if not (input.artifact.schema =ₛ node.input_schema)
          then err (wrong_schema node.id)
          else decision_case_for_value node bytes r.index.schema_json)
    ok (
      tag,
      record r {
        selected_cases = insert node.id tag r.selected_cases;
        outputs = insert node.id input r.outputs;
      },
    )

-- the chosen branch's artifact, under the select's id
unfoldable pub alias_output : Resolver → GraphNode → NodeOutput → Resolved Resolver
alias_output r node output =
    if not (output.artifact.schema =ₛ node.output_schema)
    then err (wrong_schema node.id)
    else ok (record r { outputs = insert node.id output r.outputs })

-- the loop over the select's inputs
unfoldable pub chosen_output : Resolver → GraphNode → String → List SelectInput → Resolved Resolver
chosen_output r node tag [] = err (no_input_for_case node.id tag)
chosen_output r node tag (i ∷ rest) =
    if not (i.case =ₛ tag) then chosen_output r node tag rest else (do
      output ← require (missing_output i.source node.id) (lookup i.source r.outputs)
      alias_output r node output)

unfoldable pub select_output : Resolver → GraphNode → Resolved Resolver
select_output r node = do
  tag ← require (no_selection node.id node.decision_ref) (lookup node.decision_ref r.selected_cases)
  chosen_output r node tag node.select_inputs
