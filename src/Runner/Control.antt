-- ===== src/Runner/Control.antt =====
-- internal/orchestrator/control.go: a decision or a selected value that a remote task resolves.
-- `canonicalize` is canonical.CanonicalizeJSON.
use mathlib.Core.List.{Memᴰ}
use massive.Base.{
  ℕ, suc, ◌+◌, String, ◌≡◌, refl, sym, ap, ◌∙◌, Option, none, some, List, [], ◌∷◌, Bool-cases, true,
  not, ◌=ₛ◌, =ₛ_iff, inl, inr, arith, if◌then◌else◌, Dict, lookup, insert, get_elem?,
}
use massive.MapExec.Collect.{Bytes}
use massive.Plan.Graph.{GraphNode, DecisionCase}
use massive.Runner.Inputs.{Values, ResolveError, Resolved, ok, err, ◌>>=◌, require}
use massive.Runner.Routes.{decision_case_for_value}
use massive.Runner.Merges.{decision_case_for_value-declared}

pub record SchemaEntry : Type 0 where
  pub hash : String
  pub canonical_json : String

pub record ControlValue : Type 0 where
  pub value : Bytes
  pub case_index : Option ℕ

unfoldable pub schemas_of : List SchemaEntry → Dict String → Dict String
schemas_of [] m = m
schemas_of (s ∷ rest) m = schemas_of rest (insert s.hash s.canonical_json m)

unfoldable pub find_node : String → List GraphNode → Option GraphNode
find_node id [] = none
find_node id (n ∷ rest) = if not (n.id =ₛ id) then find_node id rest else some n

-- the first case with the tag, from an index on
unfoldable pub case_index_from : ℕ → String → List DecisionCase → Option ℕ
case_index_from index tag [] = none
case_index_from index tag (d ∷ rest) =
    let later = case_index_from (index + 1) tag rest in if d.tag =ₛ tag then some index else later

module _ (c : Values) where
  unfoldable pub control_decision : GraphNode → Bytes → Dict String → Resolved ControlValue
  control_decision node input schemas = do
    tag ← decision_case_for_value c node input schemas
    index ← require (ResolveError.unavailable_case node.id) (case_index_from 0 tag node.cases)
    ok (record { value = input; case_index = some index })

  unfoldable pub checked_value : GraphNode → Bytes → String → Resolved ControlValue
  checked_value node input schema =
      if c.is_valid schema input
      then ok (record { value = input; case_index = none })
      else err (ResolveError.invalid_selected node.id)

  unfoldable pub control_select : GraphNode → Bytes → Dict String → Resolved ControlValue
  control_select node input schemas = do
    schema ←
        require (ResolveError.unavailable_output_schema node.id) (lookup node.output_schema schemas)
    checked_value node input schema

  unfoldable pub control_node : GraphNode → Bytes → Dict String → Resolved ControlValue
  control_node node input schemas =
      if node.kind =ₛ "decision"
      then control_decision node input schemas
      else (if node.kind =ₛ "select"
          then control_select node input schemas
          else err (ResolveError.not_control node.id))

  unfoldable pub resolve_control_value :
      (Bytes → Option Bytes)
      → List SchemaEntry
      → List GraphNode
      → String
      → Bytes
      → Resolved ControlValue
  resolve_control_value canonicalize entries nodes id json = do
    input ← require (ResolveError.not_canonical id) (canonicalize json)
    node ← require (ResolveError.no_control_node id) (find_node id nodes)
    control_node node input (schemas_of entries [])

case_index-Memᴰ :
    (index : ℕ) (tag : String) (cases : List DecisionCase) {d : DecisionCase}
    → Memᴰ d cases
    → d.tag ≡ tag
    → (i : ℕ) × (case_index_from index tag cases ≡ some (index + i))
      × ((e : DecisionCase) × (get_elem? cases i ≡ some e) × (e.tag ≡ tag))
unfolding case_index_from
case_index-Memᴰ index tag [] member tagged = elim member [ ]
case_index-Memᴰ index tag (c ∷ rest) (Memᴰ.head e) tagged =
    let same : c.tag ≡ tag = ap (λ (x : DecisionCase). x.tag) (sym e) ∙ tagged in
    (0, ground (arith, =ₛ_iff c.tag tag), (c, refl, same))
case_index-Memᴰ index tag (c ∷ rest) (Memᴰ.tail member) tagged = elim (Bool-cases (c.tag =ₛ tag)) [
  | inl same ↦ (0, ground arith, (c, refl, (=ₛ_iff c.tag tag).0 same))
  | inr other ↦
      let (i, found, after) = case_index-Memᴰ (index + 1) tag rest member tagged in
      (suc i, ground arith, after)
]

-- For a decision of the graph and a canonical value for which the local decision rule chooses a
-- case, the remote control task succeeds with the value and with the index of a case of the node
-- that has the chosen tag.
pub resolve_control_value-decision :
    (c : Values) (canonicalize : Bytes → Option Bytes) (entries : List SchemaEntry)
    (nodes : List GraphNode) (id tag : String) (json input : Bytes) (node : GraphNode)
    → canonicalize json ≡ some input
    → find_node id nodes ≡ some node
    → (node.kind =ₛ "decision") ≡ true
    → decision_case_for_value c node input (schemas_of entries []) ≡ ok tag
    → (i : ℕ) × (resolve_control_value c canonicalize entries nodes id json
        ≡ ok (record { value = input; case_index = some i }))
      × ((e : DecisionCase) × (get_elem? node.cases i ≡ some e) × (e.tag ≡ tag))
unfolding resolve_control_value control_node control_decision
resolve_control_value-decision c canonicalize entries nodes id tag json input node canonical found
      kind chosen =
    let (_, (d, listed, tagged, _)) =
      decision_case_for_value-declared c node input (schemas_of entries []) tag chosen in
    let (i, index, after) = case_index-Memᴰ 0 tag node.cases listed tagged in
    let index' : case_index_from 0 tag node.cases ≡ some i = index ∙ ap some (omega arith) in
    (i, rw (canonical, found, kind, chosen, index') refl, after)
