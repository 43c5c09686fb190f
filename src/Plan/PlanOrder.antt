-- ===== src/Plan/PlanOrder.antt =====
-- internal/orchestrator/orchestrator.go, `topologicalPlanOrder`: the order in which a plan runs.
use massive.Base.{
  ℕ, zero, suc, ◌-◌, String, Option, none, some, List, [], ◌∷◌, ◌++◌, not, ◌||◌, ◌==◌, ◌=ₛ◌,
  if◌then◌else◌, length, Dict, lookup, get_key, insert,
}
use massive.Canonical.Order.{sort_utf16}
use massive.Plan.Graph.{GraphNode, GraphEdge, Graph}
use massive.Plan.Schedule.{
  index_nodes, zero_degrees, is_known, add_targets, add_degrees, free_nodes,
}

pub data OrderError : Type 0 where
  no_id cycle : OrderError
  duplicate_id : String → OrderError
  unknown_node : String → String → OrderError

pub data PlanOrder : Type 0 where
  ok : List String → PlanOrder
  err : OrderError → PlanOrder
  out_of_fuel : PlanOrder

pub record OrderState : Type 0 where
  pub ready : List String
  pub degrees : Dict ℕ
  pub order : List String

-- the checks of the first loop; `nodes` are the ids seen so far
unfoldable pub check_ids : Dict GraphNode → List GraphNode → Option OrderError
check_ids nodes [] = none
check_ids nodes (n ∷ rest) =
    let later = check_ids (insert n.id n nodes) rest in
    if n.id =ₛ ""
    then some no_id
    else (if is_known (lookup n.id nodes) then some (duplicate_id n.id) else later)

unfoldable pub check_known : Dict GraphNode → List GraphEdge → Option OrderError
check_known nodes [] = none
check_known nodes (e ∷ rest) =
    if not (is_known (lookup e.from nodes)) || not (is_known (lookup e.to nodes))
    then some (unknown_node e.from e.to)
    else check_known nodes rest

-- The body of the inner loop. A degree counts the edges that are left, so it is positive here.
unfoldable pub release : OrderState → String → OrderState
release s next =
    let degree = get_key 0 next s.degrees - 1 in
    record s {
      degrees = insert next degree s.degrees;
      ready = if degree == 0 then s.ready ++ next ∷ [] else s.ready;
    }

unfoldable pub release_all : OrderState → List String → OrderState
release_all s [] = s
release_all s (next ∷ rest) = release_all (release s next) rest

unfoldable pub sort_ready : OrderState → OrderState
sort_ready s = record s { ready = sort_utf16 s.ready }

unfoldable pub place_node : Dict (List String) → OrderState → String → List String → OrderState
place_node adjacency s current rest = sort_ready (
    release_all (record s { ready = rest; order = s.order ++ current ∷ [] })
      (get_key [] current adjacency))

-- `for len(ready) > 0`; none when the fuel runs out
unfoldable pub place_nodes : Dict (List String) → ℕ → OrderState → Option OrderState
place_nodes adjacency zero s = elim s.ready [ [] ↦ some s | current ∷ rest ↦ none ]
place_nodes adjacency (suc fuel) s = elim s.ready [
  | [] ↦ some s
  | current ∷ rest ↦ place_nodes adjacency fuel (place_node adjacency s current rest)
]

unfoldable pub first_state : Graph → OrderState
first_state g =
    let degrees = add_degrees g.edges (zero_degrees g.nodes []) in
    record { ready = sort_utf16 (free_nodes degrees); degrees = degrees; order = [] }

unfoldable pub order_of : Graph → Option OrderState → PlanOrder
order_of g none = out_of_fuel
order_of g (some s) = if not (length s.order == length g.nodes) then err cycle else ok s.order

unfoldable pub order_checked : Graph → Option OrderError → Option OrderError → PlanOrder
order_checked g (some e) known = err e
order_checked g none (some e) = err e
order_checked g none none =
    order_of g (place_nodes (add_targets g.edges []) (length g.nodes) (first_state g))

unfoldable pub topological_plan_order : Graph → PlanOrder
topological_plan_order g =
    order_checked g (check_ids [] g.nodes) (check_known (index_nodes g.nodes []) g.edges)
