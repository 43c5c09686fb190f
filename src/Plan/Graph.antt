-- ===== src/Plan/Graph.antt =====
-- The workflow graph: `spec.Graph` of internal/spec/spec.go, and the generated `planpb.GraphIR`.
-- An absent string is "".
use massive.Base.{ℕ, String, List, Option}

-- node kinds: start, step, decision, select, map, end and exit-hook
pub record DecisionCase : Type 0 where
  pub tag : String
  pub schema : String

pub record SelectInput : Type 0 where
  pub case : String
  pub source : String

pub record GraphNode : Type 0 where
  pub id : String
  pub kind : String
  pub input_schema : String
  pub output_schema : String
  pub symbol_ref : String
  pub contract_ref : String
  pub merge_inputs : List String
  pub selector : String
  pub cases : List DecisionCase
  pub decision_ref : String
  pub select_inputs : List SelectInput
  pub item_input_schema : String
  pub item_output_schema : String
  pub max_concurrency : ℕ
  pub item_failures : String

pub record GraphEdge : Type 0 where
  pub from : String
  pub to : String
  pub case : String

pub record Graph : Type 0 where
  pub ir_version : String
  pub start : String
  pub end : String
  pub nodes : List GraphNode
  pub edges : List GraphEdge
  -- runs after the run settles; it is not part of the DAG
  pub exit_hook : Option GraphNode
