-- ===== src/Runner/Branches.antt =====
-- internal/orchestrator/resolution.go: decisions and selects against the activation gate.
use mathlib.Core.Path.{subst}
use massive.Base.{
  String, ◌≡◌, ◌≢◌, inl, inr, refl, sym, ◌∙◌, ap, Option, Option-cases, none, some, List, [],
  Bool-cases, ◌↔◌, ◌∷◌, true, false, not, ◌=ₛ◌, =ₛ_iff, if◌then◌else◌, lookup, insert,
  lookup-insert, arith,
}
use massive.Journal.Data.{SkipReason}
use massive.MapExec.Collect.{Bytes}
use massive.Plan.Graph.{GraphNode, GraphEdge, SelectInput}
use massive.Runner.Inputs.{
  Values, NodeOutput, Resolver, ResolveError, Resolved, ok, err, ◌>>=◌, require, inbound_of,
  input_for_node,
}
use massive.Runner.Routes.{
  decision_case_for_value, only_source, route_decision, alias_output, chosen_output, select_output,
}
use massive.Runner.Activation.{
  not_selected, case_reason, edge_reason, edges_reason, source_reason, inputs_reason, select_reason,
  activation_skip_reason,
}

-- what ran, where a sequence was successful
pub bind_ok :
    {A B : Type 0} (m : Resolved A) (f : A → Resolved B) {b : B}
    → (m >>= f) ≡ ok b
    → (a : A) × (m ≡ ok a) × (f a ≡ ok b)
bind_ok (ok a) f h = (a, refl, h)
bind_ok (err e) f h = cc

pub require_ok :
    {A : Type 0} (e : ResolveError) (o : Option A) {a : A} → require e o ≡ ok a → o ≡ some a
require_ok e (some a) h = cc
require_ok e none h = cc

abbrev value_or : {A : Type 0} → A → Resolved A → A
value_or a (ok b) = b
value_or a (err e) = a

pub ok_injective : {A : Type 0} {a b : A} → ok a ≡ ok b → a ≡ b
ok_injective {a} h = ap (value_or a) h

-- the resolver after a decision
abbrev routed : Resolver → GraphNode → NodeOutput → String → Resolver
routed r node input tag = record r {
  selected_cases = insert node.id tag r.selected_cases;
  outputs = insert node.id input r.outputs;
}

-- What a decision that was routed leaves.
record Routed (c : Values) (r : Resolver) (node : GraphNode) (tag : String) (r' : Resolver)
    : Type 0 where
  source : String
  bytes : Bytes
  input : NodeOutput
  one_source : only_source node.id (inbound_of r node) ≡ ok source
  read : input_for_node c r node ≡ ok bytes
  found : lookup source r.outputs ≡ some input
  same_schema : (input.artifact.schema =ₛ node.input_schema) ≡ true
  chosen : decision_case_for_value c node bytes r.index.schema_json ≡ ok tag
  after : r' ≡ routed r node input tag

route_decision-Routed :
    (c : Values) (r r' : Resolver) (node : GraphNode) (tag : String)
    → route_decision c r node ≡ ok (tag, r')
    → Routed c r node tag r'
unfolding route_decision
route_decision-Routed c r r' node tag h =
    let (source, one, h1) = bind_ok (only_source node.id (inbound_of r node)) _ h in
    let (bytes, read, h2) = bind_ok (input_for_node c r node) _ h1 in
    let (input, found, h3) = bind_ok (require _ (lookup source r.outputs)) _ h2 in
    let (tag', chosen, h4) =
      bind_ok (if not (input.artifact.schema =ₛ node.input_schema) then _ else _) _ h3 in
    let pair : ◌≡◌ {A = String × Resolver} (tag', routed r node input tag') (tag, r') =
      ok_injective h4 in
    let same : tag' ≡ tag = ap (λ (q : String × Resolver). q.0) pair in
    record {
      source = source;
      bytes = bytes;
      input = input;
      one_source = one;
      read = read;
      found = require_ok _ _ found;
      same_schema = ground arith;
      chosen = ground arith;
      after = sym (ap (λ (q : String × Resolver). q.1) pair) ∙ ap (routed r node input) same;
    }

edge_reason-selected :
    (s : Resolver) (id : String) (e : GraphEdge) (tag : String)
    → lookup e.from s.inactive ≡ none
    → (e.case =ₛ "") ≡ false
    → lookup e.from s.selected_cases ≡ some tag
    → edge_reason s id e ≡ ok (if tag =ₛ e.case then none else some (not_selected e))
unfolding edge_reason case_reason
edge_reason-selected s id e tag active labelled selected = ground arith

-- After a decision that was not skipped has chosen a case, a node other than a select behind one
-- conditional edge from the decision is active exactly if the edge has that case, and otherwise
-- skipped for the reason that names the decision and the edge's case.
pub activation-route_decision :
    (c : Values) (r r' : Resolver) (decision target : GraphNode) (e : GraphEdge) (tag : String)
    → route_decision c r decision ≡ ok (tag, r')
    → (target.kind =ₛ "select") ≡ false
    → inbound_of r target ≡ e ∷ []
    → e.from ≡ decision.id
    → e.case ≢ ""
    → lookup decision.id r.inactive ≡ none
    → activation_skip_reason r' target ≡ ok (if tag =ₛ e.case then none else some (not_selected e))
unfolding activation_skip_reason edges_reason
activation-route_decision c r r' decision target e tag h plain one from conditional active =
    let d = route_decision-Routed c r r' decision tag h in
    let s = routed r decision d.input tag in
    let selected : lookup decision.id s.selected_cases ≡ some tag = ground (
      arith,
      lookup-insert decision.id decision.id tag r.selected_cases,
      =ₛ_iff decision.id decision.id,
    ) in
    let labelled : (e.case =ₛ "") ≡ false = ground (arith, =ₛ_iff e.case "") in
    let reason =
      edge_reason-selected s target.id e tag
        (subst (λ v. lookup v s.inactive ≡ none) (sym from) active) labelled
        (subst (λ v. lookup v s.selected_cases ≡ some tag) (sym from) selected) in
    rw (d.after, plain, one, reason) (ground arith)

source_reason-none :
    (id : String) (input : SelectInput) (o : Option SkipReason)
    → source_reason id input o ≡ ok none
    → o ≡ none
unfolding source_reason
source_reason-none id input none h = refl
source_reason-none id input (some reason) h = cc

-- The first input of a select for a case.
pub data FirstFor (tag : String) (input : SelectInput) : List SelectInput → Type 0 where
  here : (rest : List SelectInput) → input.case ≡ tag → FirstFor tag input (input ∷ rest)
  there :
      (other : SelectInput) (rest : List SelectInput)
      → other.case ≢ tag
      → FirstFor tag input rest
      → FirstFor tag input (other ∷ rest)

inputs_reason-none :
    (r : Resolver) (id tag : String) (inputs : List SelectInput)
    → inputs_reason r id tag inputs ≡ ok none
    → (input : SelectInput) × FirstFor tag input inputs × (lookup input.source r.inactive ≡ none)
unfolding inputs_reason
inputs_reason-none r id tag [] h = absurd (ground arith)
inputs_reason-none r id tag (i ∷ rest) h = elim (Bool-cases (i.case =ₛ tag)) [
  | inl own ↦ (i, here rest ((=ₛ_iff i.case tag).0 own), source_reason-none id i _ (ground arith))
  | inr other ↦
      let (input, first, active) = inputs_reason-none r id tag rest (ground arith) in
      (input, there i rest (λ e. ground (arith, (=ₛ_iff i.case tag).1 e)) first, active)
]

-- What a select publishes from a source: the source's output, of the select's schema, under the
-- select's id; the rest of the resolver stays.
pub record IsPublished (r : Resolver) (node : GraphNode) (source : String) (r' : Resolver)
    : Type 0 where
  pub output : NodeOutput
  pub found : lookup source r.outputs ≡ some output
  pub same_schema : output.artifact.schema ≡ node.output_schema
  pub under_id : lookup node.id r'.outputs ≡ some output
  pub after : r' ≡ record r { outputs = insert node.id output r.outputs }

alias_output_iff :
    (r r' : Resolver) (node : GraphNode) (output : NodeOutput)
    → (alias_output r node output ≡ ok r') ↔ (
        (output.artifact.schema ≡ node.output_schema)
        × (r' ≡ record r { outputs = insert node.id output r.outputs }))
unfolding alias_output
alias_output_iff r r' node output =
    let same = =ₛ_iff output.artifact.schema node.output_schema in
    (
      λ h. elim (Bool-cases (output.artifact.schema =ₛ node.output_schema)) [
        | inl own ↦ (same.0 own, sym (ok_injective (rw own at h)))
        | inr other ↦ absurd (ground arith)
      ],
      λ (own, after). rw (same.1 own) (ap ok (sym after)),
    )

chosen_output-IsPublished :
    (r r' : Resolver) (node : GraphNode) (tag : String) (input : SelectInput)
    (inputs : List SelectInput)
    → FirstFor tag input inputs
    → (chosen_output r node tag inputs ≡ ok r') ↔ IsPublished r node input.source r'
unfolding chosen_output
chosen_output-IsPublished r r' node tag input _ (here rest own) =
    let found = (=ₛ_iff input.case tag).1 own in
    (
      λ h.
          let (output, present, last) =
            bind_ok
              (require (ResolveError.missing_output input.source node.id)
                (lookup input.source r.outputs))
              (alias_output r node) (rw found at h) in
          let (schema, after) = (alias_output_iff r r' node output).0 last in
          record {
            output = output;
            found = require_ok _ _ present;
            same_schema = schema;
            under_id = rw after (
                ground
                  (arith, lookup-insert node.id node.id output r.outputs, =ₛ_iff node.id node.id));
            after = after;
          },
      λ p. rw (found, p.found) ((alias_output_iff r r' node p.output).1 (p.same_schema, p.after)),
    )
chosen_output-IsPublished r r' node tag input _ (there other rest differs first) =
    let skipped : (other.case =ₛ tag) ≡ false = ground (arith, =ₛ_iff other.case tag) in
    rw skipped (chosen_output-IsPublished r r' node tag input rest first)

-- A select that the scheduler lets run has a case that its decision selected, and its first
-- input for that case has an active source. It then succeeds exactly if that source has an
-- output of the select's schema, which it publishes under its own id while the rest of the
-- resolver stays.
pub select_output-active :
    (r r' : Resolver) (node : GraphNode)
    → (node.kind =ₛ "select") ≡ true
    → activation_skip_reason r node ≡ ok none
    → (tag : String) × (input : SelectInput) × (lookup node.decision_ref r.selected_cases
        ≡ some tag)
      × FirstFor tag input node.select_inputs
      × (lookup input.source r.inactive ≡ none)
      × ((select_output r node ≡ ok r') ↔ IsPublished r node input.source r')
unfolding activation_skip_reason select_reason select_output
select_output-active r r' node kind h = elim (Option-cases (lookup node.decision_ref r.inactive)) [
  | inl active ↦
      let h0 = rw (kind, active) at h in
      let (tag, one, h1) = bind_ok (require _ (lookup node.decision_ref r.selected_cases)) _ h0 in
      let (input, first, live) = inputs_reason-none r node.id tag node.select_inputs h1 in
      let selected = require_ok _ _ one in
      (
        tag,
        input,
        selected,
        first,
        live,
        rw selected (chosen_output-IsPublished r r' node tag input node.select_inputs first),
      )
  | inr (reason, skipped) ↦ absurd (ground arith)
]
