-- ===== src/Runner/ResolveTests.antt =====
-- A decision with two branches, its select, and a merge.
use mathlib.Core.List.{Memᴰ}
use massive.Base.{
  ℕ, ◌↔◌, inl, false, first_error, get_elem?, ◌≤◌, ◌≡◌, refl, arith, some, none, List, [], ◌∷◌,
  ◌++◌, String, Dict, lookup, get_key, insert, ◌=ₛ◌, =ₛ_iff, if◌then◌else◌, true, times, same_text,
}
use massive.Journal.Data.{ArtifactRef, Manifest, running}
use massive.Journal.Read.{
  check_manifest, check_failure, check_hook, check_step, validate_attempts, check_items,
  check_dense, last_status, check_last,
}
use massive.Journal.Marks.{no_artifact, new_step, find_step}
use massive.Runner.Gate.{Progress, gate_node}
use massive.Runner.GateJournal.{IsSound, IsFresh, GatedPost}
use massive.Runner.GateRecord.{GateRecord}
use massive.Runner.GateRecords.{gate_node_sound}
use massive.MapExec.Collect.{Bytes}
use massive.Plan.Graph.{GraphNode, GraphEdge, DecisionCase, SelectInput}
use massive.Runner.Inputs.{
  Values, NodeOutput, ExecutionIndex, Resolver, ok, inbound_of, input_for_node, single_input,
  merge_input, merge_values, check_sources, is_source,
}
use massive.Runner.Routes.{
  case_schema, declared_case, decision_case_for_value, only_source, route_decision, select_output,
}
use massive.Runner.Activation.{
  not_selected, activation_skip_reason, select_reason, inputs_reason, source_reason,
}
use massive.Runner.Branches.{FirstFor, IsPublished, activation-route_decision, select_output-active}
use massive.Runner.Control.{
  SchemaEntry, schemas_of, find_node, resolve_control_value, resolve_control_value-decision,
}
use massive.Runner.Merges.{
  sources, AreBodies, input_for_node-merge, decision_case_for_value-declared,
}

-- every text decodes to an object whose member "kind" is "yes"
abbrev join : List Bytes → Bytes
join [] = []
join (x ∷ xs) = x ++ b',' ∷ join xs

abbrev values : Values
values = record {
  members = λ b. some (("kind", b) ∷ []);
  text = λ b. some "yes";
  is_valid = λ s b. true;
  marshal = λ bs. some (join bs);
}

abbrev node : String → String → List String → GraphNode
node id kind merge = record {
  id = id;
  kind = kind;
  input_schema = "";
  output_schema = "";
  symbol_ref = "";
  contract_ref = "";
  merge_inputs = merge;
  selector = "kind";
  cases = record { tag = "no"; schema = "h1" } ∷ record { tag = "yes"; schema = "h2" } ∷ [];
  decision_ref = "d";
  select_inputs = record { case = "no"; source = "b" } ∷ record { case = "yes"; source = "a" } ∷ [];
  item_input_schema = "";
  item_output_schema = "";
  max_concurrency = 0;
  item_failures = "";
}

abbrev edge : String → String → String → GraphEdge
edge from to case = record { from = from; to = to; case = case }

abbrev index : ExecutionIndex
index = record {
  inbound_by_target =
      ("d", edge "s" "d" "" ∷ [])
      ∷ ("b", edge "d" "b" "no" ∷ [])
      ∷ ("m", edge "t" "m" "" ∷ edge "s" "m" "" ∷ [])
      ∷ [];
  schema_json = ("h1", "{}") ∷ ("h2", "{}") ∷ [];
}

abbrev blank : ArtifactRef
blank = record { key = ""; hash = ""; size = 0; content_type = "" }

abbrev output : Bytes → NodeOutput
output body = record {
  artifact = no_artifact;
  published = record { manifest = blank; body = blank; schema = "" };
  body = body;
}

abbrev before : Resolver
before = record {
  index = index;
  outputs = ("s", output (b'1' ∷ [])) ∷ ("t", output (b'2' ∷ [])) ∷ ("a", output (b'3' ∷ [])) ∷ [];
  selected_cases = [];
  inactive = [];
}

abbrev after : Resolver
after = record before {
  selected_cases = ("d", "yes") ∷ [];
  outputs =
      ("s", output (b'1' ∷ []))
      ∷ ("t", output (b'2' ∷ []))
      ∷ ("a", output (b'3' ∷ []))
      ∷ ("d", output (b'1' ∷ []))
      ∷ [];
}

routed : route_decision values before (node "d" "decision" []) ≡ ok ("yes", after)
unfolding route_decision only_source input_for_node single_input decision_case_for_value
    declared_case case_schema lookup get_key insert
routed = refl

inbound_b : inbound_of before (node "b" "step" []) ≡ edge "d" "b" "no" ∷ []
unfolding get_key
inbound_b = refl

nothing_inactive : lookup "d" before.inactive ≡ none
unfolding lookup
nothing_inactive = refl

activation-route_decision_example :
    activation_skip_reason after (node "b" "step" [])
    ≡ ok (if "yes" =ₛ "no" then none else some (not_selected (edge "d" "b" "no")))
activation-route_decision_example =
    activation-route_decision values before after (node "d" "decision" []) (node "b" "step" [])
      (edge "d" "b" "no") "yes" routed refl inbound_b refl
      (λ h. absurd (ground (arith, (=ₛ_iff "no" "").1 h))) nothing_inactive

select_active : activation_skip_reason after (node "x" "select" []) ≡ ok none
unfolding activation_skip_reason select_reason source_reason inputs_reason lookup
select_active = refl

abbrev selected : Resolver
selected = record after { outputs = insert "x" (output (b'3' ∷ [])) after.outputs }

select_output-active_example :
    (tag : String) × (input : SelectInput) × (lookup "d" after.selected_cases ≡ some tag)
    × FirstFor tag input (node "x" "select" []).select_inputs
    × (lookup input.source after.inactive ≡ none)
    × ((select_output after (node "x" "select" []) ≡ ok selected)
        ↔ IsPublished after (node "x" "select" []) input.source selected)
select_output-active_example =
    select_output-active after selected (node "x" "select" []) refl select_active

abbrev merged : Bytes
merged = join ((b'2' ∷ []) ∷ (b'1' ∷ []) ∷ [])

merge_read : input_for_node values before (node "m" "step" ("t" ∷ "s" ∷ [])) ≡ ok merged
unfolding input_for_node merge_input merge_values check_sources is_source lookup get_key
merge_read = refl

merge_distinct : (v : String) → times v ("t" ∷ "s" ∷ []) ≤ 1
unfolding same_text
merge_distinct v = ground (arith, =ₛ_iff "t" v, =ₛ_iff "s" v, =ₛ_iff "t" "s")

input_for_node-merge_example :
    ((v : String)
      → times v (sources (inbound_of before (node "m" "step" ("t" ∷ "s" ∷ []))))
        ≡ times v ("t" ∷ "s" ∷ []))
    × ((vs : List Bytes) × AreBodies before.outputs ("t" ∷ "s" ∷ []) vs
        × (values.marshal vs ≡ some merged))
input_for_node-merge_example =
    input_for_node-merge values before (node "m" "step" ("t" ∷ "s" ∷ [])) "t" ("s" ∷ []) merged refl
      merge_distinct merge_read

chosen :
    decision_case_for_value values (node "d" "decision" []) (b'1' ∷ []) index.schema_json ≡ ok "yes"
unfolding decision_case_for_value declared_case case_schema lookup get_key
chosen = refl

decision_case_for_value-declared_example :
    ((value : Dict Bytes) × (raw : Bytes) × (values.members (b'1' ∷ []) ≡ some value)
      × (lookup "kind" value ≡ some raw)
      × (values.text raw ≡ some "yes"))
    × ((d : DecisionCase) × Memᴰ d (node "d" "decision" []).cases
        × (d.tag ≡ "yes")
        × (values.is_valid (get_key "" d.schema index.schema_json) (b'1' ∷ []) ≡ true))
decision_case_for_value-declared_example =
    decision_case_for_value-declared values (node "d" "decision" []) (b'1' ∷ []) index.schema_json
      "yes" chosen

abbrev entries : List SchemaEntry
entries = record { hash = "h2"; canonical_json = "{}" } ∷ []

control_chosen :
    decision_case_for_value values (node "d" "decision" []) (b'1' ∷ []) (schemas_of entries [])
    ≡ ok "yes"
unfolding decision_case_for_value declared_case case_schema schemas_of insert lookup get_key
control_chosen = refl

control_found :
    find_node "d" (node "s" "start" [] ∷ node "d" "decision" [] ∷ [])
    ≡ some (node "d" "decision" [])
unfolding find_node
control_found = refl

resolve_control_value-decision_example :
    (i : ℕ) × (resolve_control_value values
        (λ b. some b)
        entries
        (node "s" "start" [] ∷ node "d" "decision" [] ∷ [])
        "d"
        (b'1' ∷ [])
      ≡ ok (record { value = b'1' ∷ []; case_index = some i }))
    × ((e : DecisionCase) × (get_elem? (node "d" "decision" []).cases i ≡ some e) × (e.tag ≡ "yes"))
resolve_control_value-decision_example =
    resolve_control_value-decision values (λ b. some b) entries
      (node "s" "start" [] ∷ node "d" "decision" [] ∷ []) "d" "yes" (b'1' ∷ []) (b'1' ∷ [])
      (node "d" "decision" []) refl control_found refl control_chosen

abbrev journal : Manifest
journal = record {
  kind = "RunManifest";
  schema_version = 6;
  encoding = "json-v6";
  plan_hash = "p";
  project_key = "p";
  run_id = "r";
  status = running;
  diagnostic = "";
  failure = none;
  environment = none;
  steps = new_step "b" false "" ∷ [];
  decisions = [];
  result = none;
  exit_hook = none;
}

abbrev progress : Progress
progress = record { resolver = after; manifest = journal; written = [] }

progress-IsSound : IsSound progress
unfolding check_manifest check_failure check_hook first_error check_step validate_attempts
    check_items check_dense last_status check_last
progress-IsSound = record { live = refl; cause = refl; accepted = refl; written = tt }

IsFresh-b : IsFresh "b" journal
unfolding find_step
IsFresh-b = (new_step "b" false "", refl, refl, inl refl)

gate_node_sound_example :
    GatedPost (gate_node values (λ k. none) (λ e. "error") progress (node "b" "step" []))
    × GateRecord values
        (λ e. "error")
        (node "b" "step" [])
        progress
        (activation_skip_reason after (node "b" "step" []))
        (gate_node values (λ k. none) (λ e. "error") progress (node "b" "step" []))
gate_node_sound_example =
    gate_node_sound values (λ k. none) (λ e. "error") progress (node "b" "step" []) progress-IsSound
      (λ h. IsFresh-b)
