-- ===== src/Runner/GateRecord.antt =====
-- internal/orchestrator/orchestrator.go, the node loop of `Run`: an entry of the journal for a node
-- that is skipped, and for a decision.
use massive.Base.{
  String, ◌≡◌, Option, none, some, List, [], ◌∷◌, ◌++◌, Bool, true, false, ◌||◌, ◌=ₛ◌, insert,
}
use massive.Journal.Data.{SkipReason, Step, Manifest, skipped}
use massive.Journal.Marks.{find_step}
use massive.Plan.Graph.{GraphNode}
use massive.Runner.Inputs.{Values, Resolver, ResolveError, Resolved, ok, err}
use massive.Runner.Routes.{route_decision}
use massive.Runner.Gate.{Progress, Gated, next, run_node, stopped}

-- the node runs as a step or a map of the journal
abbrev pub runs : GraphNode → Bool
runs node = (node.kind =ₛ "step") || (node.kind =ₛ "map")

abbrev pub progress_of : Gated → Progress
progress_of (next p) = p
progress_of (run_node p) = p
progress_of (stopped e p) = p

-- the journal was written, or the write failed
abbrev pub Saved : List Manifest → Gated → Type 0
Saved before (next q) = q.written ≡ before ++ q.manifest ∷ []
Saved before (run_node q) = ⊥
Saved before (stopped e q) = q.written ≡ before

-- the journal of a run in which a node is skipped for a reason
pub data SkipRecord (node : GraphNode) (reason : SkipReason) (before : Manifest)
    (written : List Manifest) (g : Gated) : Type 0 where
  step_skipped :
      (step : Step)
      → runs node ≡ true
      → find_step node.id before.steps ≡ some step
      → find_step node.id (progress_of g).manifest.steps
        ≡ some (record step { status = skipped; skip_reason = some reason })
      → (progress_of g).manifest.decisions ≡ before.decisions
      → Saved written g
      → SkipRecord node reason before written g
  decision_skipped :
      (node.kind =ₛ "decision") ≡ true
      → (progress_of g).manifest.steps ≡ before.steps
      → (progress_of g).manifest.decisions
        ≡ before.decisions
          ++ record {
            node_id = node.id;
            status = "skipped";
            selected_case = "";
            diagnostic = "";
            skip_reason = some reason;
          }
            ∷ []
      → Saved written g
      → SkipRecord node reason before written g
  not_recorded :
      runs node ≡ false
      → (node.kind =ₛ "decision") ≡ false
      → (progress_of g).manifest ≡ before
      → Saved written g
      → SkipRecord node reason before written g

-- the journal of a run in which a node is active
pub data ActiveRecord (c : Values) (error_text : ResolveError → String) (node : GraphNode)
    (p : Progress) (g : Gated) : Type 0 where
  selected :
      (tag : String) (routed : Resolver)
      → (node.kind =ₛ "decision") ≡ true
      → route_decision c p.resolver node ≡ ok (tag, routed)
      → (progress_of g).resolver ≡ routed
      → (progress_of g).manifest.steps ≡ p.manifest.steps
      → (progress_of g).manifest.decisions
        ≡ p.manifest.decisions
          ++ record {
            node_id = node.id;
            status = "selected";
            selected_case = tag;
            diagnostic = "";
            skip_reason = none;
          }
            ∷ []
      → Saved p.written g
      → ActiveRecord c error_text node p g
  unroutable :
      (e : ResolveError)
      → (node.kind =ₛ "decision") ≡ true
      → route_decision c p.resolver node ≡ err e
      → (progress_of g).manifest.steps ≡ p.manifest.steps
      → (progress_of g).manifest.decisions
        ≡ p.manifest.decisions
          ++ record {
            node_id = node.id;
            status = "failed";
            selected_case = "";
            diagnostic = error_text e;
            skip_reason = none;
          }
            ∷ []
      → (progress_of g).written ≡ p.written
      → ActiveRecord c error_text node p g
  unchanged :
      (node.kind =ₛ "decision") ≡ false
      → (progress_of g).manifest ≡ p.manifest
      → (progress_of g).written ≡ p.written
      → ActiveRecord c error_text node p g

-- by what the gate says of the node
abbrev pub GateRecord :
    Values
    → (ResolveError → String)
    → GraphNode
    → Progress
    → Resolved (Option SkipReason)
    → Gated
    → Type 0
GateRecord c error_text node p (err e) g = (progress_of g).manifest ≡ p.manifest
GateRecord c error_text node p (ok (some reason)) g =
    SkipRecord node reason p.manifest p.written g
    × ((progress_of g).resolver.inactive ≡ insert node.id reason p.resolver.inactive)
GateRecord c error_text node p (ok none) g = ActiveRecord c error_text node p g
