-- ===== src/Plan/Schedule/Keys.antt =====
-- internal/plan/schedule.go: which nodes the maps of the schedule know, and which of them are free.
use massive.Base.{
  ℕ, ◌+◌, ◌≤◌, String, ◌≡◌, ◌⊎◌, refl, none, List, [], ◌∷◌, Bool, Bool-cases, true, not, ◌==◌, ◌||◌,
  ◌&&◌, ◌=ₛ◌, =ₛ_iff, arith, inl, inr, if◌then◌else◌, Dict, lookup, get_key, insert, lookup-insert,
  times, same_text,
}
use massive.Plan.Graph.{GraphNode, GraphEdge}
use massive.Plan.Schedule.{
  index_nodes, zero_degrees, is_known, check_edges, add_degrees, free_nodes,
}
use massive.Plan.Schedule.Counts.{into, degrees_count, degrees_zero}

abbrev pub ids : List GraphNode → List String
ids [] = []
ids (n ∷ rest) = n.id ∷ ids rest

abbrev pub keys {ℓ} : {V : Type ℓ} → Dict V → List String
keys [] = []
keys ((k, v) ∷ m) = k ∷ keys m

-- whether a node has the id
abbrev pub is_id : String → List GraphNode → Bool
is_id v nodes = not (times v (ids nodes) == 0)

times-keys-insert {ℓ} :
    {V : Type ℓ} (k j : String) (v : V) (m : Dict V)
    → times j (keys (insert k v m))
      ≡ (if (k =ₛ j) && (times j (keys m) == 0) then 1 else times j (keys m))
unfolding insert same_text
times-keys-insert k j v [] = ground arith
times-keys-insert k j v ((i, w) ∷ m) =
    ground (arith, =ₛ_iff k j, =ₛ_iff i k, =ₛ_iff i j, times-keys-insert k j v m)

keys_zero :
    (v : String) (nodes : List GraphNode) (m : Dict ℕ)
    → times v (keys m) ≤ 1
    → times v (keys (zero_degrees nodes m))
      ≡ (if is_id v nodes || not (times v (keys m) == 0) then 1 else 0)
unfolding zero_degrees same_text
keys_zero v [] m h = ground arith
keys_zero v (n ∷ rest) m h =
    ground (arith, times-keys-insert n.id v 0 m, keys_zero v rest (insert n.id 0 m))

pub lookup-index :
    (v : String) (nodes : List GraphNode) (m : Dict GraphNode)
    → is_known (lookup v (index_nodes nodes m)) ≡ (is_id v nodes || is_known (lookup v m))
unfolding index_nodes same_text
lookup-index v [] m = ground arith
lookup-index v (n ∷ rest) m =
    ground (arith, lookup-insert n.id v n m, lookup-index v rest (insert n.id n m))

abbrev pub HasIds : List GraphNode → List GraphEdge → Type 0
HasIds nodes [] = Unit
HasIds nodes (e ∷ rest) =
    (is_id e.from nodes ≡ true) × (is_id e.to nodes ≡ true) × HasIds nodes rest

-- Edges that pass the check have both ends in the graph.
pub check_edges-HasIds :
    (nodes : List GraphNode) (edges : List GraphEdge)
    → check_edges (index_nodes nodes []) edges ≡ none
    → HasIds nodes edges
unfolding check_edges lookup
check_edges-HasIds nodes [] h = tt
check_edges-HasIds nodes (e ∷ rest) h = (
  ground (arith, lookup-index e.from nodes []),
  ground (arith, lookup-index e.to nodes []),
  check_edges-HasIds nodes rest (ground arith),
)

pub is_id_of_into :
    (v : String) (nodes : List GraphNode) (edges : List GraphEdge)
    → HasIds nodes edges
    → 1 ≤ into v edges
    → is_id v nodes ≡ true
unfolding same_text
is_id_of_into v nodes [] known h = absurd (omega arith)
is_id_of_into v nodes (e ∷ rest) known h = elim (Bool-cases (e.to =ₛ v)) [
  | inl same ↦ rw (← (=ₛ_iff e.to v).0 same) known.1
  | inr other ↦ is_id_of_into v nodes rest known.2 (ground arith)
]

keys_degrees :
    (v : String) (edges : List GraphEdge) (m : Dict ℕ)
    → (into v edges ≡ 0) ⊎ (1 ≤ times v (keys m))
    → times v (keys (add_degrees edges m)) ≡ times v (keys m)
unfolding add_degrees same_text
keys_degrees v [] m h = refl
keys_degrees v (e ∷ rest) m h = ground (
  arith,
  times-keys-insert e.to v (get_key 0 e.to m + 1) m,
  keys_degrees v rest (insert e.to (get_key 0 e.to m + 1) m),
)

free_count :
    (v : String) (m : Dict ℕ)
    → times v (keys m) ≤ 1
    → times v (free_nodes m)
      ≡ (if (times v (keys m) == 0) || not (get_key 0 v m == 0) then 0 else 1)
unfolding free_nodes get_key same_text
free_count v [] h = ground arith
free_count v ((k, degree) ∷ m) h = ground (arith, free_count v m)

-- The first ready nodes are those of the graph that no edge enters, once each.
pub times-free_nodes :
    (v : String) (nodes : List GraphNode) (edges : List GraphEdge)
    → HasIds nodes edges
    → times v (free_nodes (add_degrees edges (zero_degrees nodes [])))
      ≡ (if is_id v nodes && (into v edges == 0) then 1 else 0)
unfolding get_key
times-free_nodes v nodes edges known =
    let blank = zero_degrees nodes [] in
    let there = keys_zero v nodes [] (omega arith) in
    let counted = degrees_count v edges blank in
    let from_zero = degrees_zero v nodes [] refl in
    let entered : (into v edges ≡ 0) ⊎ (1 ≤ times v (keys blank)) =
      elim (Bool-cases (into v edges == 0)) [
        | inl unentered ↦ inl (ground arith)
        | inr some_edge ↦ inr (ground (arith, is_id_of_into v nodes edges known))
      ] in
    let same = keys_degrees v edges blank entered in
    let free = free_count v (add_degrees edges blank) (ground arith) in ground arith
