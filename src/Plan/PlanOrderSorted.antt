-- ===== src/Plan/PlanOrderSorted.antt =====
-- internal/orchestrator/orchestrator.go, `topologicalPlanOrder`: the loop, and the order it returns.
use mathlib.Core.Path.{subst}
use massive.Base.{
  ℕ, zero, suc, ◌+◌, ◌-◌, ◌≤◌, String, ◌≡◌, ◌≢◌, ◌⊎◌, refl, sym, ◌∙◌, ap, Option-cases, none, some,
  List, [], ◌∷◌, ◌++◌, true, =ₛ_iff, arith, inl, inr, lookup, get_key, get_key-insert, times,
  same_text, same_text_self, times-append, length, length-append,
}
use massive.Plan.Graph.{GraphNode, GraphEdge, Graph}
use massive.Plan.Schedule.{State, index_nodes, add_targets, initial_state}
use massive.Plan.Schedule.Counts.{between, times-sort, targets_count}
use massive.Plan.Schedule.Keys.{is_id, HasIds, lookup-index, is_id_of_into}
use massive.Plan.Schedule.Rounds.{Between, Within, popped_free, popped-Within, between-le-into}
use massive.Plan.Schedule.Sorted.{
  IsOrdered, IsOrdered-snoc, IsSchedule, Drained, complete, placeable, ready_cases, initial-Between,
}
use massive.Plan.PlanOrder.{
  OrderError, ok, err, out_of_fuel, OrderState, check_ids, check_known, release, release_all,
  sort_ready, place_node, place_nodes, first_state, order_of, order_checked, topological_plan_order,
}

-- the same queue, degrees and order, as a state of the compiler's loop
abbrev state_of : OrderState → State
state_of s = record {
  ready = s.ready;
  degrees = s.degrees;
  depths = [];
  order = s.order;
  steps = [];
}

release-Within :
    (nodes : List GraphNode) (edges : List GraphEdge) (s : OrderState) (next : String)
    (left : List String)
    → is_id next nodes ≡ true
    → Within nodes edges (next ∷ left) (state_of s)
    → Within nodes edges left (state_of (release s next))
unfolding release same_text
release-Within nodes edges s next left known w = record {
  degrees = λ v. ground (
    arith,
    get_key-insert 0 next v (get_key 0 next s.degrees - 1) s.degrees,
    w.degrees v,
    w.degrees next,
    =ₛ_iff next v,
    =ₛ_iff next next,
  );
  once = λ v. ground (
    arith,
    times-append v s.ready (next ∷ []),
    w.once v,
    w.once next,
    w.degrees next,
    =ₛ_iff next v,
    =ₛ_iff next next,
  );
}

release_all-Within :
    (nodes : List GraphNode) (edges : List GraphEdge) (s : OrderState) (left : List String)
    → ((v : String) → 1 ≤ times v left → is_id v nodes ≡ true)
    → Within nodes edges left (state_of s)
    → Within nodes edges [] (state_of (release_all s left)) × ((release_all s left).order ≡ s.order)
unfolding release_all release
release_all-Within nodes edges s [] known w = (w, refl)
release_all-Within nodes edges s (next ∷ left) known w =
    let next_known : is_id next nodes ≡ true = known next (omega (arith, same_text_self next)) in
    release_all-Within nodes edges (release s next) left (λ v h. known v (omega arith))
      (release-Within nodes edges s next left next_known w)

check_known-HasIds :
    (nodes : List GraphNode) (edges : List GraphEdge)
    → check_known (index_nodes nodes []) edges ≡ none
    → HasIds nodes edges
unfolding check_known lookup
check_known-HasIds nodes [] h = tt
check_known-HasIds nodes (e ∷ rest) h = (
  ground (arith, lookup-index e.from nodes []),
  ground (arith, lookup-index e.to nodes []),
  check_known-HasIds nodes rest (ground arith),
)

module _ (g : Graph) (known : HasIds g.nodes g.edges) where
  first_state-Between : Between g (state_of (first_state g))
  unfolding first_state initial_state
  first_state-Between = record {
    degrees = (initial-Between g known).degrees;
    once = (initial-Between g known).once;
  }

  sort_ready-Between :
      (s : OrderState) → Between g (state_of s) → Between g (state_of (sort_ready s))
  unfolding sort_ready
  sort_ready-Between s w = record {
    degrees = w.degrees;
    once = λ v. (let sorted = times-sort v s.ready in let o = w.once v in ground arith);
  }

  place_node-Between :
      (s : OrderState) (current : String) (rest : List String)
      → Between g (state_of s)
      → s.ready ≡ current ∷ rest
      → Between g (state_of (place_node (add_targets g.edges []) s current rest))
        × ((place_node (add_targets g.edges []) s current rest).order ≡ s.order ++ current ∷ [])
  unfolding place_node sort_ready get_key
  place_node-Between s current rest w e =
      let left = get_key [] current (add_targets g.edges []) in
      let counted : (v : String) → times v left ≡ between current v g.edges =
        λ v. (targets_count current v g.edges [] ∙ omega arith) in
      let (w', same) =
        release_all-Within g.nodes g.edges
          (record s { ready = rest; order = s.order ++ current ∷ [] }) left
          (λ v h.
            is_id_of_into v g.nodes g.edges known
              (omega (arith, counted v, between-le-into g.nodes g.edges current v g.edges)))
          (popped-Within g known (state_of s) current rest left [] counted w e) in
      (
        sort_ready-Between
            (release_all (record s { ready = rest; order = s.order ++ current ∷ [] }) left) w',
        same,
      )

  place_nodes-next :
      (fuel : ℕ) (s : OrderState) (current : String) (rest : List String)
      → s.ready ≡ current ∷ rest
      → place_nodes (add_targets g.edges []) (suc fuel) s
        ≡ place_nodes
            (add_targets g.edges [])
            fuel
            (place_node (add_targets g.edges []) s current rest)
  unfolding place_nodes
  place_nodes-next fuel s current rest e = rw e refl

  place_nodes-end :
      (fuel : ℕ) (s : OrderState)
      → s.ready ≡ []
      → place_nodes (add_targets g.edges []) fuel s ≡ some s
  unfolding place_nodes
  place_nodes-end zero s e = rw e refl
  place_nodes-end (suc fuel) s e = rw e refl

  place_nodes-Drained :
      (fuel : ℕ) (s : OrderState)
      → Between g (state_of s)
      → IsOrdered g.edges [] s.order
      → length g.nodes ≤ fuel + length s.order
      → (t : OrderState) × (place_nodes (add_targets g.edges []) fuel s ≡ some t)
        × Drained g (state_of t)
  place_nodes-Drained zero s w o enough = elim (ready_cases g known s.ready) [
    | inl e ↦ (s, place_nodes-end zero s e, record { between = w; ordered = o; empty = e })
    | inr (current, rest, e) ↦
        absurd (omega (arith, placeable g known (state_of s) current rest w e))
  ]
  place_nodes-Drained (suc fuel) s w o enough = elim (ready_cases g known s.ready) [
    | inl e ↦ (s, place_nodes-end (suc fuel) s e, record { between = w; ordered = o; empty = e })
    | inr (current, rest, e) ↦
        let (w', order') = place_node-Between s current rest w e in
        let o' =
          IsOrdered-snoc g.edges [] s.order current o
            (popped_free g known (state_of s) current rest w e).1 in
        let size = ap length order' ∙ length-append s.order (current ∷ []) in
        let (t, ran, d) =
          place_nodes-Drained fuel (place_node (add_targets g.edges []) s current rest) w'
            (subst (IsOrdered g.edges []) (sym order') o') (omega arith) in
        (t, place_nodes-next fuel s current rest e ∙ ran, d)
  ]

order_checked-cases :
    (g : Graph)
    → ((e : OrderError) × (topological_plan_order g ≡ err e))
      ⊎ ((t : OrderState) × (topological_plan_order g ≡ order_of g (some t))
          × Drained g (state_of t))
unfolding topological_plan_order order_checked first_state
order_checked-cases g = elim (Option-cases (check_ids [] g.nodes)) [
  | inr (e, bad) ↦ inl (e, ground arith)
  | inl unique ↦ elim (Option-cases (check_known (index_nodes g.nodes []) g.edges)) [
    | inr (e, bad) ↦ inl (e, ground arith)
    | inl fine ↦
        let known = check_known-HasIds g.nodes g.edges fine in
        let (t, ran, d) =
          place_nodes-Drained g known (length g.nodes) (first_state g) (first_state-Between g known)
            tt (omega arith) in
        inr (
          t,
          ap (λ a. order_checked g a (check_known (index_nodes g.nodes []) g.edges)) unique
              ∙ ap (order_checked g none) fine
              ∙ ap (order_of g) ran,
          d,
        )
  ]
]

-- On every graph the loop over the ready queue of the orchestrator ends within as many rounds as
-- the graph has nodes.
pub topological_plan_order_ends : (g : Graph) → topological_plan_order g ≢ out_of_fuel
unfolding order_of
topological_plan_order_ends g h = elim (order_checked-cases g) [
  | inl (e, refused) ↦ absurd (ground arith)
  | inr (t, ran, d) ↦ absurd (ground arith)
]

-- An order that the orchestrator computes for a plan has each node of the graph exactly once, as
-- often as the graph declares the id, and every node after all sources of the edges into it.
pub topological_plan_order-IsSchedule :
    (g : Graph) {order : List String} → topological_plan_order g ≡ ok order → IsSchedule g order
unfolding order_of
topological_plan_order-IsSchedule g {order} h = elim (order_checked-cases g) [
  | inl (e, refused) ↦ absurd (ground arith)
  | inr (t, ran, d) ↦
      let full : length t.order ≡ length g.nodes = ground arith in
      let same : order ≡ t.order = ground arith in
      subst (IsSchedule g) (sym same) (complete g (state_of t) d full)
]
