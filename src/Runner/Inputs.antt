-- ===== src/Runner/Inputs.antt =====
-- internal/orchestrator/resolution.go: the state of the resolver, and the input of a node.
-- JSON decoding and schema validation are Go libraries, behind `Values`. The execution index is
-- given by the fields that the resolver reads.
use massive.Base.{
  String, Option, none, some, List, [], ◌∷◌, Bool, false, not, ◌||◌, ◌==◌, ◌=ₛ◌, length, Dict,
  lookup, get_key, ◌⨾◌, fail_if,
}
use massive.Journal.Data.{ArtifactRef, DataArtifact, PublishedArtifact, SkipReason}
use massive.MapExec.Collect.{Bytes}
use massive.Plan.Graph.{GraphNode, GraphEdge}

pub record Values : Type 0 where
  -- json.Unmarshal into map[string]json.RawMessage
  pub members : Bytes → Option (Dict Bytes)
  -- json.Unmarshal into string
  pub text : Bytes → Option String
  -- validateJSONAgainstSchema returns nil
  pub is_valid : String → Bytes → Bool
  -- canonical.Marshal of []json.RawMessage
  pub marshal : List Bytes → Option Bytes

pub record NodeOutput : Type 0 where
  pub artifact : DataArtifact
  pub published : PublishedArtifact
  pub body : Bytes

pub record ExecutionIndex : Type 0 where
  pub inbound_by_target : Dict (List GraphEdge)
  pub schema_json : Dict String

pub record Resolver : Type 0 where
  pub index : ExecutionIndex
  pub outputs : Dict NodeOutput
  pub selected_cases : Dict String
  pub inactive : Dict SkipReason

pub data ResolveError : Type 0 where
  not_one_edge : String → ResolveError
  missing_output missing_edge : String → String → ResolveError
  undeclared_edges unencodable : String → ResolveError
  wrong_schema not_object missing_selector selector_not_text undeclared_case : String → ResolveError
  unavailable_schema invalid_case : String → String → ResolveError
  no_selection no_input_for_case : String → String → ResolveError
  inactive_source : String → SkipReason → ResolveError
  not_canonical no_control_node not_control unavailable_case unavailable_output_schema
        invalid_selected :
      String → ResolveError

pub data Resolved (A : Type 0) : Type 0 where
  ok : A → Resolved A
  err : ResolveError → Resolved A

abbrev pub then_with : {A B : Type 0} → (A → Resolved B) → Resolved A → Resolved B
then_with f (ok a) = f a
then_with f (err e) = err e

infixl 5 ◌>>=◌
abbrev pub ◌>>=◌ : {A B : Type 0} → Resolved A → (A → Resolved B) → Resolved B
m >>= f = then_with f m

-- `x, ok := ...; if !ok { return err }`
abbrev pub require : {A : Type 0} → ResolveError → Option A → Resolved A
require e (some a) = ok a
require e none = err e

-- `if err != nil { return err }`
abbrev pub unless : {A : Type 0} → Option ResolveError → Resolved A → Resolved A
unless (some e) r = err e
unless none r = r

abbrev pub inbound_of : Resolver → GraphNode → List GraphEdge
inbound_of r node = get_key [] node.id r.index.inbound_by_target

-- `inboundSources[source]`
unfoldable pub is_source : String → List GraphEdge → Bool
is_source source [] = false
is_source source (e ∷ rest) = (e.from =ₛ source) || is_source source rest

unfoldable pub check_sources : String → List GraphEdge → List String → Option ResolveError
check_sources id inbound [] = none
check_sources id inbound (source ∷ rest) =
    fail_if (not (is_source source inbound)) (missing_edge id source)
    ⨾ check_sources id inbound rest

unfoldable pub merge_values : Dict NodeOutput → String → List String → Resolved (List Bytes)
merge_values outputs id [] = ok []
merge_values outputs id (source ∷ rest) = do
  output ← require (missing_output source id) (lookup source outputs)
  values ← merge_values outputs id rest
  ok (output.body ∷ values)

unfoldable pub single_input : Dict NodeOutput → String → List GraphEdge → Resolved Bytes
single_input outputs id [] = err (not_one_edge id)
single_input outputs id (e ∷ []) = do
  output ← require (missing_output e.from id) (lookup e.from outputs)
  ok output.body
single_input outputs id (e ∷ f ∷ rest) = err (not_one_edge id)

module _ (c : Values) where
  open c use {marshal}

  unfoldable pub merge_input : Resolver → GraphNode → List GraphEdge → Resolved Bytes
  merge_input r node inbound =
      unless
        (check_sources node.id inbound node.merge_inputs
          ⨾ fail_if (not (length inbound == length node.merge_inputs)) (undeclared_edges node.id))
        (do
          values ← merge_values r.outputs node.id node.merge_inputs
          require (unencodable node.id) (marshal values))

  unfoldable pub input_for_node : Resolver → GraphNode → Resolved Bytes
  input_for_node r node = elim node.merge_inputs [
    | [] ↦ single_input r.outputs node.id (inbound_of r node)
    | source ∷ rest ↦ merge_input r node (inbound_of r node)
  ]

-- the zero value
abbrev no_ref : ArtifactRef
no_ref = record { key = ""; hash = ""; size = 0; content_type = "" }

-- `digest` is canonical.DigestBytes; the start node and the schema are fields of the graph.
unfoldable pub new_execution_resolver :
    (Bytes → String) → ExecutionIndex → String → String → Bytes → Resolver
new_execution_resolver digest index start_node input_schema input = record {
  index = index;
  outputs =
      (
        start_node,
        record {
          artifact = record {
            key = "";
            hash = digest input;
            content_type = "application/json";
            schema = input_schema;
          };
          published = record { manifest = no_ref; body = no_ref; schema = "" };
          body = input;
        },
      )
      ∷ [];
  selected_cases = [];
  inactive = [];
}
