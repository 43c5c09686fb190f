-- ===== src/Plan/Schedule/Acyclic.antt =====
-- internal/plan/schedule.go: graphs without a cycle.
use massive.Base.{
  ℕ, zero, suc, ◌≤◌, ◌<◌, String, ◌≡◌, refl, ◌∙◌, ap, some, none, List, [], ◌∷◌, Bool-cases, true,
  ◌=ₛ◌, =ₛ_iff, arith, inl, inr, times, same_text, length, length-le_of_times, map, get_key,
}
use massive.Plan.Graph.{GraphEdge, Graph}
use massive.Plan.Schedule.{
  State, Schedule, ok, check_edges, index_nodes, schedule_of, build_schedule,
}
use massive.Plan.Schedule.Counts.{unplaced}
use massive.Plan.Schedule.Keys.{ids, is_id, HasIds}
use massive.Plan.Schedule.Sorted.{Drained, build_schedule_cases, length-ids}

-- A rank grows along every edge. It exists where the graph has no cycle.
abbrev pub IsRank : (String → ℕ) → List GraphEdge → Type 0
IsRank rank [] = Unit
IsRank rank (e ∷ rest) = (rank e.from < rank e.to) × IsRank rank rest

module _ (g : Graph) (rank : String → ℕ) (t : State) (d : Drained g t) where
  unplaced_none_below :
      (bound : ℕ) (v : String) (edges : List GraphEdge)
      → ((u : String) → rank u < bound → is_id u g.nodes ≡ true → times u t.order ≡ 1)
      → HasIds g.nodes edges
      → IsRank rank edges
      → rank v ≤ bound
      → unplaced t.order v edges ≡ 0
  unfolding same_text
  unplaced_none_below bound v [] earlier known graded h = refl
  unplaced_none_below bound v (e ∷ rest) earlier known graded h = elim (Bool-cases (e.to =ₛ v)) [
    | inl same ↦
        let below : rank e.from < bound =
          let eq = ap rank ((=ₛ_iff e.to v).0 same) in omega (arith, graded.0) in
        ground (
          arith,
          earlier e.from below known.0,
          unplaced_none_below bound v rest earlier known.2 graded.1 h,
        )
    | inr other ↦ ground (arith, unplaced_none_below bound v rest earlier known.2 graded.1 h)
  ]

  placed_below :
      (bound : ℕ) (v : String)
      → HasIds g.nodes g.edges
      → IsRank rank g.edges
      → rank v < bound
      → is_id v g.nodes ≡ true
      → times v t.order ≡ 1
  placed_below zero v known graded h i = absurd (omega arith)
  placed_below (suc bound) v known graded h i =
      let free =
        unplaced_none_below bound v g.edges (λ u h' i'. placed_below bound u known graded h' i')
          known graded (omega arith) in
      let o = d.between.once v in let none_ready = ap (times v) d.empty in ground arith

full_ok :
    (g : Graph) (t : State)
    → length t.order ≡ length g.nodes
    → (s : Schedule) × (schedule_of g (some t) ≡ ok s)
unfolding schedule_of
full_ok g t full =
    let s : Schedule = record {
      node_order = t.order;
      step_ids = t.steps;
      depths = map (λ id. record { node_id = id; depth = get_key 0 id t.depths }) t.order;
    } in
    (s, ground arith)

-- A graph whose ids are distinct, whose edges have both ends in it, and that has a rank which
-- grows along every edge has a schedule.
pub build_schedule_complete :
    (g : Graph) (rank : String → ℕ)
    → ((v : String) → times v (ids g.nodes) ≤ 1)
    → check_edges (index_nodes g.nodes []) g.edges ≡ none
    → IsRank rank g.edges
    → (s : Schedule) × (build_schedule g ≡ ok s)
build_schedule_complete g rank distinct fine graded = elim (build_schedule_cases g) [
  | inl (e, bad, _) ↦ absurd (ground arith)
  | inr (known, (t, ran, d)) ↦
      let all : (v : String) → times v (ids g.nodes) ≤ times v t.order = λ v.
        (let p = placed_below g rank t d (suc (rank v)) v known graded (omega arith) in
          let one = distinct v in ground arith) in
      let few : (v : String) → times v t.order ≤ times v (ids g.nodes) =
        λ v. (let o = d.between.once v in ground arith) in
      let le = length-le_of_times (ids g.nodes) t.order all in
      let ge = length-le_of_times t.order (ids g.nodes) few in
      let full : length t.order ≡ length g.nodes = omega (arith, le, ge, length-ids g.nodes) in
      let (s, made) = full_ok g t full in (s, ran ∙ made)
]
