-- ===== src/Plan/Schedule/Sorted.antt =====
-- internal/plan/schedule.go: the whole loop, and what a schedule that is returned holds.
use mathlib.Core.Path.{subst}
use mathlib.Core.List.{append-nil, append_assoc}
use massive.Base.{
  ℕ, zero, suc, ◌+◌, ◌≤◌, ◌<◌, String, ◌≡◌, ◌≢◌, ◌⊎◌, refl, sym, ◌∙◌, ap, Option-cases, none, some,
  List, [], ◌∷◌, ◌++◌, arith, inl, inr, if◌then◌else◌, Dict, get_key, times, times-append, length,
  length-append, length-le_of_times, times-eq_of_length,
}
use massive.Plan.Graph.{GraphNode, GraphEdge, Graph}
use massive.Plan.Schedule.{
  State, Schedule, ScheduleError, ok, err, out_of_fuel, visit, drain, adjacency_of, initial_state,
  index_nodes, check_edges, schedule_of, schedule_checked, build_schedule, add_degrees,
  zero_degrees, free_nodes,
}
use massive.Plan.Schedule.Counts.{into, unplaced, degrees_count, degrees_zero, times-sort}
use massive.Plan.Schedule.Keys.{ids, is_id, HasIds, check_edges-HasIds, times-free_nodes}
use massive.Plan.Schedule.Rounds.{Between, popped_free, visit-Between}

-- Every edge into a node of the list comes from a node that is placed or stands before it.
abbrev pub IsOrdered : List GraphEdge → List String → List String → Type 0
IsOrdered edges placed [] = Unit
IsOrdered edges placed (v ∷ rest) =
    (unplaced placed v edges ≡ 0) × IsOrdered edges (placed ++ v ∷ []) rest

pub IsOrdered-snoc :
    (edges : List GraphEdge) (placed order : List String) (v : String)
    → IsOrdered edges placed order
    → unplaced (placed ++ order) v edges ≡ 0
    → IsOrdered edges placed (order ++ v ∷ [])
IsOrdered-snoc edges placed [] v o h =
    (subst (λ p. unplaced p v edges ≡ 0) (append-nil placed) h, tt)
IsOrdered-snoc edges placed (x ∷ order) v o h =
    let shifted = sym (append_assoc placed (x ∷ []) order) in
    (
      o.0,
      IsOrdered-snoc edges (placed ++ x ∷ []) order v o.1
          (subst (λ p. unplaced p v edges ≡ 0) shifted h),
    )

pub length-ids : (nodes : List GraphNode) → length (ids nodes) ≡ length nodes
length-ids [] = refl
length-ids (n ∷ rest) = ap suc (length-ids rest)

unplaced_none : (v : String) (edges : List GraphEdge) → unplaced [] v edges ≡ into v edges
unplaced_none v [] = refl
unplaced_none v (e ∷ rest) = omega (arith, unplaced_none v rest)

pub record Drained (g : Graph) (s : State) : Type 0 where
  pub between : Between g s
  pub ordered : IsOrdered g.edges [] s.order
  pub empty : s.ready ≡ []

module _ (g : Graph) (known : HasIds g.nodes g.edges) where
  nothing : (v : String) → get_key {V = ℕ} 0 v [] ≡ 0
  unfolding get_key
  nothing v = refl

  pub initial-Between : Between g (initial_state g)
  unfolding initial_state
  initial-Between = record {
    degrees = λ v.
        let from_zero = degrees_zero v g.nodes [] (nothing v) in
        omega (
          arith,
          degrees_count v g.edges (zero_degrees g.nodes []),
          from_zero,
          unplaced_none v g.edges,
        );
    once = λ v.
        let sorted = times-sort v (free_nodes (add_degrees g.edges (zero_degrees g.nodes []))) in
        let free = times-free_nodes v g.nodes g.edges known in
        let all_left = unplaced_none v g.edges in ground arith;
  }

  fits : (s : State) → Between g s → length s.order ≤ length g.nodes
  fits s w =
      let le = length-le_of_times s.order (ids g.nodes) (λ v. let o = w.once v in ground arith) in
      omega (arith, le, length-ids g.nodes)

  -- A ready node fits into the order.
  pub placeable :
      (s : State) (current : String) (rest : List String)
      → Between g s
      → s.ready ≡ current ∷ rest
      → length s.order < length g.nodes
  placeable s current rest w e =
      let le = length-le_of_times (s.order ++ current ∷ []) (ids g.nodes) (λ v.
        let o = w.once v in
        let sum = times-append v s.order (current ∷ []) in
        let same = ap (times v) e in ground arith) in
      omega (arith, le, length-append s.order (current ∷ []), length-ids g.nodes)

  pub ready_cases :
      (ready : List String)
      → (ready ≡ []) ⊎ ((current : String) × (rest : List String) × (ready ≡ current ∷ rest))
  ready_cases [] = inl refl
  ready_cases (current ∷ rest) = inr (current, rest, refl)

  drain-next :
      (nodes : Dict GraphNode) (fuel : ℕ) (s : State) (current : String) (rest : List String)
      → s.ready ≡ current ∷ rest
      → drain nodes (adjacency_of g) (suc fuel) s
        ≡ drain nodes (adjacency_of g) fuel (visit nodes (adjacency_of g) s current rest)
  unfolding drain
  drain-next nodes fuel s current rest e = rw e refl

  drain-Drained :
      (nodes : Dict GraphNode) (fuel : ℕ) (s : State)
      → Between g s
      → IsOrdered g.edges [] s.order
      → length g.nodes ≤ fuel + length s.order
      → (t : State) × (drain nodes (adjacency_of g) fuel s ≡ some t) × Drained g t
  unfolding drain
  drain-Drained nodes zero s w o enough = elim (ready_cases s.ready) [
    | inl e ↦ (s, rw e refl, record { between = w; ordered = o; empty = e })
    | inr (current, rest, e) ↦ absurd (omega (arith, placeable s current rest w e))
  ]
  drain-Drained nodes (suc fuel) s w o enough = elim (ready_cases s.ready) [
    | inl e ↦ (s, rw e refl, record { between = w; ordered = o; empty = e })
    | inr (current, rest, e) ↦
        let (w', order') = visit-Between g known nodes s current rest w e in
        let o' =
          IsOrdered-snoc g.edges [] s.order current o (popped_free g known s current rest w e).1 in
        let size = ap length order' ∙ length-append s.order (current ∷ []) in
        let (t, ran, d) =
          drain-Drained nodes fuel (visit nodes (adjacency_of g) s current rest) w'
            (subst (IsOrdered g.edges []) (sym order') o') (omega arith) in
        (t, drain-next nodes fuel s current rest e ∙ ran, d)
  ]

pub graph-Drained :
    (g : Graph)
    → HasIds g.nodes g.edges
    → (t : State) × (drain
          (index_nodes g.nodes [])
          (adjacency_of g)
          (length g.nodes)
          (initial_state g)
        ≡ some t)
      × Drained g t
unfolding initial_state
graph-Drained g known =
    drain-Drained g known (index_nodes g.nodes []) (length g.nodes) (initial_state g)
      (initial-Between g known) tt (omega arith)

passed :
    (g : Graph) (t : State)
    → check_edges (index_nodes g.nodes []) g.edges ≡ none
    → drain (index_nodes g.nodes []) (adjacency_of g) (length g.nodes) (initial_state g) ≡ some t
    → build_schedule g ≡ schedule_of g (some t)
unfolding build_schedule schedule_checked
passed g t fine ran = ap (schedule_checked g) fine ∙ ap (schedule_of g) ran

pub build_schedule_cases :
    (g : Graph)
    → ((e : ScheduleError) × (check_edges (index_nodes g.nodes []) g.edges ≡ some e)
        × (build_schedule g ≡ err e))
      ⊎ (HasIds g.nodes g.edges
          × ((t : State) × (build_schedule g ≡ schedule_of g (some t)) × Drained g t))
unfolding build_schedule schedule_checked
build_schedule_cases g = elim (Option-cases (check_edges (index_nodes g.nodes []) g.edges)) [
  | inl fine ↦
      let known = check_edges-HasIds g.nodes g.edges fine in
      let (t, ran, d) = graph-Drained g known in inr (known, (t, passed g t fine ran, d))
  | inr (e, bad) ↦ inl (e, bad, ap (schedule_checked g) bad)
]

-- What a schedule promises: it has each node of the graph once, after the sources of its edges.
pub record IsSchedule (g : Graph) (order : List String) : Type 0 where
  pub each_once : (v : String) → times v order ≡ (if is_id v g.nodes then 1 else 0)
  pub all_nodes : (v : String) → times v order ≡ times v (ids g.nodes)
  pub ordered : IsOrdered g.edges [] order

pub complete :
    (g : Graph) (t : State) → Drained g t → length t.order ≡ length g.nodes → IsSchedule g t.order
complete g t d full =
    let few : (v : String) → times v t.order ≤ times v (ids g.nodes) =
      λ v. (let o = d.between.once v in ground arith) in
    let all = times-eq_of_length t.order (ids g.nodes) few (full ∙ sym (length-ids g.nodes)) in
    record {
      each_once = λ v. (let o = d.between.once v in let a = all v in ground arith);
      all_nodes = all;
      ordered = d.ordered;
    }

-- On every graph the loop over the ready queue ends within as many rounds as the graph has
-- nodes.
pub build_schedule_ends : (g : Graph) → build_schedule g ≢ out_of_fuel
unfolding schedule_of
build_schedule_ends g h = elim (build_schedule_cases g) [
  | inl (e, _, stopped) ↦ absurd (ground arith)
  | inr (known, (t, ran, d)) ↦ absurd (ground arith)
]

-- A schedule that is returned has each node of the graph exactly once, as often as the graph
-- declares the id, and every node after all sources of the edges into it.
pub build_schedule_ordered :
    (g : Graph) {s : Schedule} → build_schedule g ≡ ok s → IsSchedule g s.node_order
unfolding schedule_of
build_schedule_ordered g {s} h = elim (build_schedule_cases g) [
  | inl (e, _, stopped) ↦ absurd (ground arith)
  | inr (known, (t, ran, d)) ↦
      let full : length t.order ≡ length g.nodes = ground arith in
      let same : s.node_order ≡ t.order = ground arith in
      subst (IsSchedule g) (sym same) (complete g t d full)
]
