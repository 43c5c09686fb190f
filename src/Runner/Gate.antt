-- ===== src/Runner/Gate.antt =====
-- internal/orchestrator/orchestrator.go, the node loop of `Run`: what it does with a node before a
-- step or a map runs. `write k` is the journal write after k earlier ones.
use massive.Base.{
  ℕ, String, Option, none, some, List, [], ◌∷◌, ◌++◌, ◌||◌, ◌=ₛ◌, if◌then◌else◌, length, insert,
}
use massive.Journal.Data.{SkipReason, Manifest}
use massive.Journal.Marks.{
  mark_step_skipped, mark_decision_skipped, mark_decision_failed, mark_decision_selected,
}
use massive.Plan.Graph.{GraphNode}
use massive.Runner.Inputs.{Values, Resolver, ResolveError, Resolved, ok, err}
use massive.Runner.Routes.{route_decision, select_output}
use massive.Runner.Activation.{activation_skip_reason}

pub record Progress : Type 0 where
  pub resolver : Resolver
  pub manifest : Manifest
  -- the journals that were written
  pub written : List Manifest

pub data GateError : Type 0 where
  resolve : ResolveError → GateError
  unsupported_kind : String → GateError
  not_written : String → GateError

pub data Gated : Type 0 where
  -- `continue`
  next : Progress → Gated
  -- the node is a step or a map that runs now
  run_node : Progress → Gated
  stopped : GateError → Progress → Gated

module _ (c : Values) (write : ℕ → Option String) (error_text : ResolveError → String) where
  -- writeRunManifest, then `continue`
  unfoldable pub save_next : Progress → Gated
  save_next p = elim (write (length p.written)) [
    | some e ↦ stopped (not_written e) p
    | none ↦ next (record p { written = p.written ++ p.manifest ∷ [] })
  ]

  abbrev pub with_journal : Progress → Manifest → Progress
  with_journal p m = record p { manifest = m }

  -- `resolution.inactive[nodeID] = *reason`
  abbrev pub deactivated : Progress → GraphNode → SkipReason → Progress
  deactivated p node reason =
      let r = p.resolver in
      record p { resolver = record r { inactive = insert node.id reason r.inactive } }

  unfoldable pub skip_node : Progress → GraphNode → SkipReason → Gated
  skip_node p node reason =
      if (node.kind =ₛ "step") || (node.kind =ₛ "map")
      then save_next (with_journal p (mark_step_skipped node.id reason p.manifest))
      else (if node.kind =ₛ "decision"
          then save_next (with_journal p (mark_decision_skipped node.id reason p.manifest))
          else (if node.kind =ₛ "select"
              then save_next p
              else stopped (unsupported_kind node.kind) p))

  unfoldable pub gate_decision : Progress → GraphNode → Resolved (String × Resolver) → Gated
  gate_decision p node (err e) =
      stopped (resolve e) (with_journal p (mark_decision_failed node.id (error_text e) p.manifest))
  gate_decision p node (ok routed) = save_next (
      with_journal (record p { resolver = routed.1 })
        (mark_decision_selected node.id routed.0 p.manifest))

  unfoldable pub gate_select : Progress → Resolved Resolver → Gated
  gate_select p (err e) = stopped (resolve e) p
  gate_select p (ok r) = next (record p { resolver = r })

  unfoldable pub active_node : Progress → GraphNode → Gated
  active_node p node =
      if node.kind =ₛ "decision"
      then gate_decision p node (route_decision c p.resolver node)
      else (if node.kind =ₛ "select"
          then gate_select p (select_output p.resolver node)
          else (if (node.kind =ₛ "start") || (node.kind =ₛ "end")
              then next p
              else (if (node.kind =ₛ "map") || (node.kind =ₛ "step")
                  then run_node p
                  else stopped (unsupported_kind node.kind) p)))

  unfoldable pub gate_reason : Progress → GraphNode → Resolved (Option SkipReason) → Gated
  gate_reason p node (err e) = stopped (resolve e) p
  gate_reason p node (ok (some reason)) = skip_node (deactivated p node reason) node reason
  gate_reason p node (ok none) = active_node p node

  unfoldable pub gate_node : Progress → GraphNode → Gated
  gate_node p node = gate_reason p node (activation_skip_reason p.resolver node)
