-- ===== src/Plan/Schedule/Rounds.antt =====
-- internal/plan/schedule.go: the state between two rounds, and within one.
use massive.Base.{
  ◌+◌, ◌-◌, ◌≤◌, String, ◌≡◌, refl, ap, List, [], ◌∷◌, ◌++◌, true, ◌==◌, ◌&&◌, =ₛ_iff, arith,
  if◌then◌else◌, Dict, get_key, get_key-insert, times, same_text, same_text_self, times-append,
}
use massive.Plan.Graph.{GraphNode, GraphEdge, Graph}
use massive.Plan.Schedule.{State, relax, relax_all, visit, adjacency_of}
use massive.Plan.Schedule.Counts.{into, between, unplaced, times-insert_sorted, adjacency_count}
use massive.Plan.Schedule.Keys.{is_id, HasIds, is_id_of_into}

-- Within a round: `left` are the targets that the inner loop has not come to.
pub record Within (nodes : List GraphNode) (edges : List GraphEdge) (left : List String) (s : State)
    : Type 0 where
  pub degrees : (v : String) → get_key 0 v s.degrees ≡ unplaced s.order v edges + times v left
  pub once :
      (v : String)
      → times v s.order + times v s.ready
        ≡ (if is_id v nodes && (unplaced s.order v edges + times v left == 0) then 1 else 0)

module _ (nodes : List GraphNode) (edges : List GraphEdge) where
  relax-order :
      (current : String) (s : State) (next : String) → (relax current s next).order ≡ s.order
  unfolding relax
  relax-order current s next = refl

  relax-Within :
      (current : String) (s : State) (next : String) (left : List String)
      → is_id next nodes ≡ true
      → Within nodes edges (next ∷ left) s
      → Within nodes edges left (relax current s next)
  unfolding relax same_text
  relax-Within current s next left known w = record {
    degrees = λ v. ground (
      arith,
      get_key-insert 0 next v (get_key 0 next s.degrees - 1) s.degrees,
      w.degrees v,
      w.degrees next,
      =ₛ_iff next v,
      =ₛ_iff next next,
    );
    once = λ v. ground (
      arith,
      times-insert_sorted v next s.ready,
      w.once v,
      w.once next,
      w.degrees next,
      =ₛ_iff next v,
      =ₛ_iff next next,
    );
  }

  relax_all-Within :
      (current : String) (s : State) (left : List String)
      → ((v : String) → 1 ≤ times v left → is_id v nodes ≡ true)
      → Within nodes edges left s
      → Within nodes edges [] (relax_all current s left)
        × ((relax_all current s left).order ≡ s.order)
  unfolding relax_all relax
  relax_all-Within current s [] known w = (w, refl)
  relax_all-Within current s (next ∷ left) known w =
      let next_known : is_id next nodes ≡ true = known next (omega (arith, same_text_self next)) in
      relax_all-Within current (relax current s next) left (λ v h. known v (omega arith))
        (relax-Within current s next left next_known w)

  -- the edges that a newly placed node accounts for
  unplaced-snoc :
      (placed : List String) (current v : String) (rest : List GraphEdge)
      → times current placed ≡ 0
      → unplaced placed v rest ≡ unplaced (placed ++ current ∷ []) v rest + between current v rest
  unfolding same_text
  unplaced-snoc placed current v [] h = omega arith
  unplaced-snoc placed current v (e ∷ rest) h = ground (
    arith,
    unplaced-snoc placed current v rest h,
    times-append e.from placed (current ∷ []),
    =ₛ_iff e.from current,
    =ₛ_iff current e.from,
  )

  pub between-le-into : (u v : String) (rest : List GraphEdge) → between u v rest ≤ into v rest
  unfolding same_text
  between-le-into u v [] = omega arith
  between-le-into u v (e ∷ rest) = ground (arith, between-le-into u v rest)

-- Between two rounds.
abbrev pub Between : Graph → State → Type 0
Between g s = Within g.nodes g.edges [] s

module _ (g : Graph) (known : HasIds g.nodes g.edges) where
  -- `current` left the ready queue, and was free.
  pub popped_free :
      (s : State) (current : String) (rest : List String)
      → Between g s
      → s.ready ≡ current ∷ rest
      → (times current s.order ≡ 0) × (unplaced s.order current g.edges ≡ 0)
  popped_free s current rest w e =
      let here = w.once current in
      let same = ap (times current) e in
      let one = same_text_self current in (ground arith, ground arith)

  -- the state when `current` has been placed and its targets are still to be visited
  abbrev popped : State → String → List String → List String → State
  popped s current rest steps = record s {
    ready = rest;
    order = s.order ++ current ∷ [];
    steps = steps;
  }

  pub popped-Within :
      (s : State) (current : String) (rest left steps : List String)
      → ((v : String) → times v left ≡ between current v g.edges)
      → Between g s
      → s.ready ≡ current ∷ rest
      → Within g.nodes g.edges left (popped s current rest steps)
  popped-Within s current rest left steps counted w e =
      let free = (popped_free s current rest w e).0 in
      record {
        degrees = λ v. omega (
          arith,
          w.degrees v,
          unplaced-snoc g.nodes g.edges s.order current v g.edges free,
          counted v,
        );
        once = λ v.
            let sum = times-append v s.order (current ∷ []) in
            let same = ap (times v) e in
            let split = unplaced-snoc g.nodes g.edges s.order current v g.edges free in
            let before = w.once v in let count = counted v in ground arith;
      }

  pub visit-Between :
      (nodes : Dict GraphNode) (s : State) (current : String) (rest : List String)
      → Between g s
      → s.ready ≡ current ∷ rest
      → Between g (visit nodes (adjacency_of g) s current rest)
        × ((visit nodes (adjacency_of g) s current rest).order ≡ s.order ++ current ∷ [])
  unfolding visit adjacency_of
  visit-Between nodes s current rest w e =
      let counted : (v : String)
          → times v (get_key [] current (adjacency_of g)) ≡ between current v g.edges =
        λ v. adjacency_count current v g.edges in
      relax_all-Within g.nodes g.edges current _ _
        (λ v h.
          is_id_of_into v g.nodes g.edges known
            (omega (arith, counted v, between-le-into g.nodes g.edges current v g.edges)))
        (popped-Within s current rest _ _ counted w e)
