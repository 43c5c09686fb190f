-- ===== src/Runner/Merges.antt =====
-- internal/orchestrator/resolution.go: the input of a merge, and the case of a decision.
use mathlib.Core.List.{Memᴰ}
use mathlib.Core.Path.{subst}
use massive.Base.{
  suc, ◌≤◌, String, ◌≡◌, refl, sym, ◌∙◌, ap, Option, none, some, List, [], ◌∷◌, Bool-cases, true,
  ◌=ₛ◌, =ₛ_iff, inl, inr, length, Dict, lookup, get_key, ⨾_passes, arith, times, same_text,
  times-eq_of_length,
}
use massive.MapExec.Collect.{Bytes}
use massive.Plan.Graph.{GraphNode, GraphEdge, DecisionCase}
use massive.Runner.Inputs.{
  Values, NodeOutput, Resolver, ResolveError, Resolved, ok, require, unless, inbound_of, is_source,
  check_sources, merge_values, merge_input, input_for_node,
}
use massive.Runner.Routes.{case_schema, declared_case, decision_case_for_value}
use massive.Runner.Branches.{bind_ok, require_ok, ok_injective}

abbrev pub sources : List GraphEdge → List String
sources [] = []
sources (e ∷ rest) = e.from ∷ sources rest

-- the published bodies of the sources, in order
abbrev pub AreBodies : Dict NodeOutput → List String → List Bytes → Type 0
AreBodies outputs [] [] = Unit
AreBodies outputs [] (v ∷ vs) = ⊥
AreBodies outputs (s ∷ ss) [] = ⊥
AreBodies outputs (s ∷ ss) (v ∷ vs) =
    ((output : NodeOutput) × (lookup s outputs ≡ some output) × (output.body ≡ v))
    × AreBodies outputs ss vs

length-sources : (edges : List GraphEdge) → length (sources edges) ≡ length edges
length-sources [] = refl
length-sources (e ∷ rest) = ap suc (length-sources rest)

times-is_source :
    (v : String) (edges : List GraphEdge) → is_source v edges ≡ true → 1 ≤ times v (sources edges)
unfolding is_source same_text
times-is_source v [] h = absurd (ground arith)
times-is_source v (e ∷ rest) h = ground (arith, times-is_source v rest)

check_sources-fits :
    (id : String) (inbound : List GraphEdge) (merge : List String) (v : String)
    → check_sources id inbound merge ≡ none
    → 1 ≤ times v merge
    → 1 ≤ times v (sources inbound)
unfolding check_sources same_text
check_sources-fits id inbound [] v h k = absurd (omega arith)
check_sources-fits id inbound (s ∷ rest) v h k =
    ground (arith, times-is_source s inbound, check_sources-fits id inbound rest v, =ₛ_iff s v)

merge_values-AreBodies :
    (outputs : Dict NodeOutput) (id : String) (ss : List String) {values : List Bytes}
    → merge_values outputs id ss ≡ ok values
    → AreBodies outputs ss values
unfolding merge_values
merge_values-AreBodies outputs id [] {values} h = subst (AreBodies outputs []) (ok_injective h) tt
merge_values-AreBodies outputs id (s ∷ ss) {values} h =
    let (output, found, h1) = bind_ok (require _ (lookup s outputs)) _ h in
    let (vs, later, h2) = bind_ok (merge_values outputs id ss) _ h1 in
    subst (AreBodies outputs (s ∷ ss)) (ok_injective h2)
      ((output, require_ok _ _ found, refl), merge_values-AreBodies outputs id ss later)

unless_ok :
    {A : Type 0} (o : Option ResolveError) (m : Resolved A) {a : A}
    → unless o m ≡ ok a
    → (o ≡ none) × (m ≡ ok a)
unless_ok none m h = (refl, h)
unless_ok (some e) m h = cc

merge_input-taken :
    (c : Values) (r : Resolver) (node : GraphNode) (source : String) (rest : List String)
    → node.merge_inputs ≡ source ∷ rest
    → input_for_node c r node ≡ merge_input c r node (inbound_of r node)
unfolding input_for_node
merge_input-taken c r node source rest merge = ground arith

-- Where a node with distinct merge inputs gets an input, its inbound edges come from exactly the
-- merge inputs, once each, and the input encodes the bodies of their outputs in the order of the
-- merge inputs.
pub input_for_node-merge :
    (c : Values) (r : Resolver) (node : GraphNode) (source : String) (rest : List String)
    (out : Bytes)
    → node.merge_inputs ≡ source ∷ rest
    → ((v : String) → times v node.merge_inputs ≤ 1)
    → input_for_node c r node ≡ ok out
    → ((v : String) → times v (sources (inbound_of r node)) ≡ times v node.merge_inputs)
      × ((values : List Bytes) × AreBodies r.outputs node.merge_inputs values
          × (c.marshal values ≡ some out))
unfolding merge_input
input_for_node-merge c r node source rest out merge distinct h =
    let inbound = inbound_of r node in
    let (checked, ran) = unless_ok _ _ (sym (merge_input-taken c r node source rest merge) ∙ h) in
    let (present, counted) =
      (⨾_passes (check_sources node.id inbound node.merge_inputs) _).0 checked in
    let (values, read, encoded) =
      bind_ok (merge_values r.outputs node.id node.merge_inputs) _ ran in
    let size : length node.merge_inputs ≡ length (sources inbound) =
      ground (arith, length-sources inbound) in
    let fits : (v : String) → times v node.merge_inputs ≤ times v (sources inbound) = λ v.
      (let one = distinct v in
        ground (arith, check_sources-fits node.id inbound node.merge_inputs v present)) in
    (
      λ v. sym (times-eq_of_length node.merge_inputs (sources inbound) fits size v),
      (
        values,
        merge_values-AreBodies r.outputs node.id node.merge_inputs read,
        require_ok _ _ encoded,
      ),
    )

declared_case-Memᴰ :
    (c : Values) (node : GraphNode) (schemas : Dict String) (input : Bytes) (tag got : String)
    (cases : List DecisionCase)
    → declared_case c node schemas input tag cases ≡ ok got
    → (got ≡ tag)
      × ((d : DecisionCase) × Memᴰ d cases
          × (d.tag ≡ tag)
          × (c.is_valid (get_key "" d.schema schemas) input ≡ true))
unfolding declared_case case_schema
declared_case-Memᴰ c node schemas input tag got [] h = cc
declared_case-Memᴰ c node schemas input tag got (d ∷ rest) h = elim (Bool-cases (d.tag =ₛ tag)) [
  | inl same ↦ (ground arith, (d, Memᴰ.head refl, (=ₛ_iff d.tag tag).0 same, ground arith))
  | inr other ↦
      let (eq, (d', member, tagged, valid)) =
        declared_case-Memᴰ c node schemas input tag got rest (ground arith) in
      (eq, (d', Memᴰ.tail member, tagged, valid))
]

-- Where a decision chooses a case for a value, the value is an object whose selector member is
-- the text of the case, and the node declares the case with a schema that accepts the value.
pub decision_case_for_value-declared :
    (c : Values) (node : GraphNode) (input : Bytes) (schemas : Dict String) (tag : String)
    → decision_case_for_value c node input schemas ≡ ok tag
    → ((value : Dict Bytes) × (raw : Bytes) × (c.members input ≡ some value)
        × (lookup node.selector value ≡ some raw)
        × (c.text raw ≡ some tag))
      × ((d : DecisionCase) × Memᴰ d node.cases
          × (d.tag ≡ tag)
          × (c.is_valid (get_key "" d.schema schemas) input ≡ true))
unfolding decision_case_for_value
decision_case_for_value-declared c node input schemas tag h =
    let (value, object, h1) = bind_ok (require _ (c.members input)) _ h in
    let (raw, member, h2) = bind_ok (require _ (lookup node.selector value)) _ h1 in
    let (tag', text, h3) = bind_ok (require _ (c.text raw)) _ h2 in
    let (same, (d, listed, tagged, valid)) =
      declared_case-Memᴰ c node schemas input tag' tag node.cases h3 in
    (
      (
        value,
        raw,
        require_ok _ _ object,
        require_ok _ _ member,
        require_ok _ _ text ∙ ap some (sym same),
      ),
      (d, listed, tagged ∙ sym same, valid),
    )
