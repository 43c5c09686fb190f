-- ===== src/Plan/Schedule/Counts.antt =====
-- internal/plan/schedule.go: the edges of the graph, counted, against the maps of the schedule.
use massive.Base.{
  ℕ, ◌+◌, ◌*◌, String, ◌≡◌, refl, ◌∙◌, ap, List, [], ◌∷◌, ◌++◌, Bool, not, ◌==◌, =ₛ_iff, arith,
  if◌then◌else◌, Dict, get_key, insert, get_key-insert, times, same_text, times-append,
}
use massive.Canonical.Order.{insert_sorted, sort_utf16}
use massive.Plan.Graph.{GraphNode, GraphEdge}
use massive.Plan.Schedule.{zero_degrees, add_targets, add_degrees, sort_targets}

-- the edges into a node
abbrev pub into : String → List GraphEdge → ℕ
into v [] = 0
into v (e ∷ rest) = same_text e.to v + into v rest

-- the edges from one node to another
abbrev pub between : String → String → List GraphEdge → ℕ
between u v [] = 0
between u v (e ∷ rest) = same_text e.from u * same_text e.to v + between u v rest

-- the edges into a node from a node that is not yet placed
abbrev pub is_placed : String → List String → Bool
is_placed u placed = not (times u placed == 0)

abbrev pub unplaced : List String → String → List GraphEdge → ℕ
unplaced placed v [] = 0
unplaced placed v (e ∷ rest) =
    (if is_placed e.from placed then 0 else same_text e.to v) + unplaced placed v rest

pub times-insert_sorted :
    (v x : String) (xs : List String) → times v (insert_sorted x xs) ≡ same_text x v + times v xs
unfolding insert_sorted
times-insert_sorted v x [] = refl
times-insert_sorted v x (y ∷ ys) = ground (arith, times-insert_sorted v x ys)

pub times-sort : (v : String) (xs : List String) → times v (sort_utf16 xs) ≡ times v xs
unfolding sort_utf16
times-sort v [] = refl
times-sort v (x ∷ xs) =
    times-insert_sorted v x (sort_utf16 xs) ∙ ap (λ n. same_text x v + n) (times-sort v xs)

pub degrees_count :
    (v : String) (edges : List GraphEdge) (m : Dict ℕ)
    → get_key 0 v (add_degrees edges m) ≡ get_key 0 v m + into v edges
unfolding add_degrees same_text
degrees_count v [] m = omega arith
degrees_count v (e ∷ rest) m = ground (
  arith,
  degrees_count v rest (insert e.to (get_key 0 e.to m + 1) m),
  get_key-insert 0 e.to v (get_key 0 e.to m + 1) m,
  =ₛ_iff e.to v,
)

pub degrees_zero :
    (v : String) (nodes : List GraphNode) (m : Dict ℕ)
    → get_key 0 v m ≡ 0
    → get_key 0 v (zero_degrees nodes m) ≡ 0
unfolding zero_degrees
degrees_zero v [] m h = h
degrees_zero v (n ∷ rest) m h =
    degrees_zero v rest (insert n.id 0 m) (ground (arith, get_key-insert 0 n.id v 0 m))

get_key-sort_targets :
    (u : String) (m : Dict (List String))
    → get_key [] u (sort_targets m) ≡ sort_utf16 (get_key [] u m)
unfolding get_key sort_targets
get_key-sort_targets u [] = unfold sort_utf16 in refl
get_key-sort_targets u ((k, targets) ∷ m) = ground (arith, get_key-sort_targets u m)

pub targets_count :
    (u v : String) (edges : List GraphEdge) (m : Dict (List String))
    → times v (get_key [] u (add_targets edges m)) ≡ times v (get_key [] u m) + between u v edges
unfolding add_targets same_text
targets_count u v [] m = omega arith
targets_count u v (e ∷ rest) m = ground (
  arith,
  targets_count u v rest (insert e.from (get_key [] e.from m ++ e.to ∷ []) m),
  get_key-insert [] e.from u (get_key [] e.from m ++ e.to ∷ []) m,
  =ₛ_iff e.from u,
  times-append v (get_key [] e.from m) (e.to ∷ []),
)

-- The adjacency of `u` holds `v` once for each edge from `u` to `v`.
pub adjacency_count :
    (u v : String) (edges : List GraphEdge)
    → times v (get_key [] u (sort_targets (add_targets edges []))) ≡ between u v edges
adjacency_count u v edges =
    ap (times v) (get_key-sort_targets u (add_targets edges []))
    ∙ times-sort v (get_key [] u (add_targets edges []))
    ∙ targets_count u v edges []
    ∙ (unfold get_key in omega arith)
