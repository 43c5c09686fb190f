-- ===== src/Plan/Tests.antt =====
-- A graph that forks and joins.
use massive.Base.{
  ℕ, ◌≡◌, ◌≢◌, ◌≤◌, refl, arith, none, [], ◌∷◌, String, ◌=ₛ◌, =ₛ_iff, ◌+◌, false, if◌then◌else◌,
  lookup, insert, get_key, times, same_text,
}
use massive.Canonical.Order.{insert_sorted, sort_utf16, less_utf16, less_units, utf16}
use massive.Plan.Graph.{GraphNode, GraphEdge, Graph}
use massive.Plan.Schedule.{
  Schedule, ok, out_of_fuel, index_nodes, zero_degrees, check_edges, add_targets, add_degrees,
  sort_targets, free_nodes, relax, relax_all, visit, drain, initial_state, adjacency_of,
  schedule_of, schedule_checked, build_schedule,
}
use massive.Plan.Schedule.Keys.{ids}
use massive.Plan.PlanOrder
use massive.Plan.PlanOrder.{
  topological_plan_order, order_checked, order_of, place_nodes, place_node, release_all, release,
  sort_ready, first_state, check_ids, check_known,
}
use massive.Plan.PlanOrderSorted.{topological_plan_order-IsSchedule, topological_plan_order_ends}
use massive.Plan.Schedule.Sorted.{IsSchedule, build_schedule_ordered, build_schedule_ends}
use massive.Plan.Schedule.Acyclic.{build_schedule_complete}

abbrev node : String → String → GraphNode
node id kind = record {
  id = id;
  kind = kind;
  input_schema = "";
  output_schema = "";
  symbol_ref = "";
  contract_ref = "";
  merge_inputs = [];
  selector = "";
  cases = [];
  decision_ref = "";
  select_inputs = [];
  item_input_schema = "";
  item_output_schema = "";
  max_concurrency = 0;
  item_failures = "";
}

abbrev edge : String → String → GraphEdge
edge from to = record { from = from; to = to; case = "" }

abbrev diamond : Graph
diamond = record {
  ir_version = "1";
  start = "s";
  end = "z";
  nodes = node "z" "end" ∷ node "b" "step" ∷ node "a" "step" ∷ node "s" "start" ∷ [];
  edges = edge "s" "b" ∷ edge "s" "a" ∷ edge "b" "z" ∷ edge "a" "z" ∷ [];
  exit_hook = none;
}

abbrev sorted : Schedule
sorted = record {
  node_order = "s" ∷ "a" ∷ "b" ∷ "z" ∷ [];
  step_ids = "a" ∷ "b" ∷ [];
  depths =
      record { node_id = "s"; depth = 0 }
      ∷ record { node_id = "a"; depth = 1 }
      ∷ record { node_id = "b"; depth = 1 }
      ∷ record { node_id = "z"; depth = 2 }
      ∷ [];
}

diamond-sorted : build_schedule diamond ≡ ok sorted
unfolding build_schedule schedule_checked schedule_of drain visit relax_all relax initial_state
    adjacency_of sort_targets add_targets add_degrees zero_degrees index_nodes check_edges
    free_nodes sort_utf16 insert_sorted less_utf16 less_units utf16 lookup insert get_key
diamond-sorted = refl

build_schedule_ordered_example : IsSchedule diamond ("s" ∷ "a" ∷ "b" ∷ "z" ∷ [])
build_schedule_ordered_example = build_schedule_ordered diamond diamond-sorted

build_schedule_ends_example : build_schedule diamond ≢ out_of_fuel
build_schedule_ends_example = build_schedule_ends diamond

abbrev level : String → ℕ
level v = if v =ₛ "s" then 0 else (if v =ₛ "z" then 2 else 1)

diamond_edges : check_edges (index_nodes diamond.nodes []) diamond.edges ≡ none
unfolding check_edges index_nodes lookup insert
diamond_edges = refl

one_of : (a b v : String) → (a =ₛ b) ≡ false → same_text a v + same_text b v ≤ 1
unfolding same_text
one_of a b v h = ground (arith, =ₛ_iff a v, =ₛ_iff b v, =ₛ_iff a b)

diamond_distinct : (v : String) → times v (ids diamond.nodes) ≤ 1
unfolding same_text
diamond_distinct v = ground (
  arith,
  one_of "z" "b" v refl,
  one_of "z" "a" v refl,
  one_of "z" "s" v refl,
  one_of "b" "a" v refl,
  one_of "b" "s" v refl,
  one_of "a" "s" v refl,
)

build_schedule_complete_example : (s : Schedule) × (build_schedule diamond ≡ ok s)
build_schedule_complete_example =
    build_schedule_complete diamond level diamond_distinct diamond_edges
      (omega arith, (omega arith, (omega arith, (omega arith, tt))))

diamond_order : topological_plan_order diamond ≡ PlanOrder.ok ("s" ∷ "a" ∷ "b" ∷ "z" ∷ [])
unfolding topological_plan_order order_checked order_of place_nodes place_node release_all release
    sort_ready first_state check_ids check_known add_targets add_degrees zero_degrees index_nodes
    free_nodes sort_utf16 insert_sorted less_utf16 less_units utf16 lookup insert get_key
diamond_order = refl

topological_plan_order-IsSchedule_example : IsSchedule diamond ("s" ∷ "a" ∷ "b" ∷ "z" ∷ [])
topological_plan_order-IsSchedule_example = topological_plan_order-IsSchedule diamond diamond_order

topological_plan_order_ends_example : topological_plan_order diamond ≢ PlanOrder.out_of_fuel
topological_plan_order_ends_example = topological_plan_order_ends diamond
