-- ===== src/Plan/Schedule.antt =====
-- internal/plan/schedule.go: the deterministic topological order of a workflow graph.
pub mod Counts
pub mod Keys
pub mod Rounds
pub mod Sorted
pub mod Acyclic
use massive.Base.{
  ℕ, zero, suc, ◌+◌, ◌-◌, String, Option, none, some, List, [], ◌∷◌, ◌++◌, map, Bool, true, false,
  not, ◌==◌, ltb, ◌=ₛ◌, if◌then◌else◌, length, Dict, lookup, get_key, insert,
}
use massive.Canonical.Order.{insert_sorted, sort_utf16}
use massive.Plan.Graph.{GraphNode, GraphEdge, Graph}

pub record NodeDepth : Type 0 where
  pub node_id : String
  pub depth : ℕ

pub record Schedule : Type 0 where
  pub node_order : List String
  pub step_ids : List String
  pub depths : List NodeDepth

pub data ScheduleError : Type 0 where
  unknown_source unknown_target : String → ScheduleError
  cycle : ScheduleError

pub data Scheduled : Type 0 where
  ok : Schedule → Scheduled
  err : ScheduleError → Scheduled
  out_of_fuel : Scheduled

-- nodeByID
unfoldable pub index_nodes : List GraphNode → Dict GraphNode → Dict GraphNode
index_nodes [] m = m
index_nodes (n ∷ rest) m = index_nodes rest (insert n.id n m)

-- indegree, all zero
unfoldable pub zero_degrees : List GraphNode → Dict ℕ → Dict ℕ
zero_degrees [] m = m
zero_degrees (n ∷ rest) m = zero_degrees rest (insert n.id 0 m)

abbrev pub is_known {ℓ} : {V : Type ℓ} → Option V → Bool
is_known none = false
is_known (some v) = true

unfoldable pub check_edges : Dict GraphNode → List GraphEdge → Option ScheduleError
check_edges nodes [] = none
check_edges nodes (e ∷ rest) =
    if not (is_known (lookup e.from nodes))
    then some (unknown_source e.from)
    else (if not (is_known (lookup e.to nodes))
        then some (unknown_target e.to)
        else check_edges nodes rest)

-- `adjacency[edge.From] = append(adjacency[edge.From], edge.To)`
unfoldable pub add_targets : List GraphEdge → Dict (List String) → Dict (List String)
add_targets [] m = m
add_targets (e ∷ rest) m = add_targets rest (insert e.from (get_key [] e.from m ++ e.to ∷ []) m)

-- `indegree[edge.To]++`
unfoldable pub add_degrees : List GraphEdge → Dict ℕ → Dict ℕ
add_degrees [] m = m
add_degrees (e ∷ rest) m = add_degrees rest (insert e.to (get_key 0 e.to m + 1) m)

unfoldable pub sort_targets : Dict (List String) → Dict (List String)
sort_targets [] = []
sort_targets ((k, targets) ∷ m) = (k, sort_utf16 targets) ∷ sort_targets m

-- the nodes whose degree is 0, in the order of the map; the caller sorts them
unfoldable pub free_nodes : Dict ℕ → List String
free_nodes [] = []
free_nodes ((k, degree) ∷ m) = if degree == 0 then k ∷ free_nodes m else free_nodes m

pub record State : Type 0 where
  pub ready : List String
  pub degrees : Dict ℕ
  pub depths : Dict ℕ
  pub order : List String
  pub steps : List String

-- The body of the inner loop. A degree counts the edges that are left, so it is positive here.
unfoldable pub relax : String → State → String → State
relax current s next =
    let degree = get_key 0 next s.degrees - 1 in
    record s {
      depths =
          if ltb (get_key 0 next s.depths) (get_key 0 current s.depths + 1)
          then insert next (get_key 0 current s.depths + 1) s.depths
          else s.depths;
      degrees = insert next degree s.degrees;
      ready = if not (degree == 0) then s.ready else insert_sorted next s.ready;
    }

unfoldable pub relax_all : String → State → List String → State
relax_all current s [] = s
relax_all current s (next ∷ rest) = relax_all current (relax current s next) rest

abbrev pub kind_is : String → Option GraphNode → Bool
kind_is kind none = false
kind_is kind (some n) = n.kind =ₛ kind

module _ (nodes : Dict GraphNode) (adjacency : Dict (List String)) where
  -- one round, after `current` left the ready queue
  unfoldable pub visit : State → String → List String → State
  visit s current rest =
      relax_all current
        (record s {
          ready = rest;
          order = s.order ++ current ∷ [];
          steps =
              if kind_is "step" (lookup current nodes) then s.steps ++ current ∷ [] else s.steps;
        })
        (get_key [] current adjacency)

  -- `for len(ready) > 0`; none when the fuel runs out
  unfoldable pub drain : ℕ → State → Option State
  drain zero s = elim s.ready [ [] ↦ some s | current ∷ rest ↦ none ]
  drain (suc fuel) s = elim s.ready [
    | [] ↦ some s
    | current ∷ rest ↦ drain fuel (visit s current rest)
  ]

unfoldable pub initial_state : Graph → State
initial_state g =
    let degrees = add_degrees g.edges (zero_degrees g.nodes []) in
    record {
      ready = sort_utf16 (free_nodes degrees);
      degrees = degrees;
      depths = [];
      order = [];
      steps = [];
    }

unfoldable pub adjacency_of : Graph → Dict (List String)
adjacency_of g = sort_targets (add_targets g.edges [])

unfoldable pub schedule_of : Graph → Option State → Scheduled
schedule_of g none = out_of_fuel
schedule_of g (some s) =
    if not (length s.order == length g.nodes)
    then err cycle
    else ok (record {
      node_order = s.order;
      step_ids = s.steps;
      depths = map (λ id. record { node_id = id; depth = get_key 0 id s.depths }) s.order;
    })

-- after the two loops that fill the maps
unfoldable pub schedule_checked : Graph → Option ScheduleError → Scheduled
schedule_checked g (some e) = err e
schedule_checked g none =
    schedule_of g
      (drain (index_nodes g.nodes []) (adjacency_of g) (length g.nodes) (initial_state g))

unfoldable pub build_schedule : Graph → Scheduled
build_schedule g = schedule_checked g (check_edges (index_nodes g.nodes []) g.edges)
