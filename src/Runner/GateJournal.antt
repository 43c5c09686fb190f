-- ===== src/Runner/GateJournal.antt =====
-- internal/orchestrator/orchestrator.go, the node loop of `Run`: the journal
-- after a control node or a skip.
use massive.Base.{
  ℕ, String, ◌≡◌, ◌⊎◌, inl, inr, Option, Option-cases, none, some, [], ◌∷◌, ◌++◌, Bool-cases, true,
  ◌||◌, ◌=ₛ◌, length, arith, first_error,
}
use massive.Journal.Data.{SkipReason, Manifest, Step, running, skipped}
use massive.Journal.Read.{check_manifest, check_failure, check_step, check_items, check_items_from}
use massive.Journal.Marks.{
  find_step, skip_step, mark_step_skipped, mark_decision_skipped, mark_decision_failed,
  mark_decision_selected,
}
use massive.Journal.Attempts.{validate-nil}
use massive.Journal.Steps.{check-update_step}
use massive.Plan.Graph.{GraphNode}
use massive.Runner.Inputs.{Values, Resolver, ResolveError, Resolved, ok, err}
use massive.Runner.Routes.{route_decision, select_output}
use massive.Runner.Activation.{activation_skip_reason}
use massive.Runner.StepInvariant.{Accepted, Accepted-snoc}
use massive.Runner.Gate.{
  Progress, GateError, Gated, next, run_node, stopped, save_next, deactivated, skip_node,
  gate_decision, gate_select, active_node, gate_reason, gate_node,
}

-- The run is not over, and its journal and all journals that were written pass the reader's checks
-- after the JSON schema.
pub record IsSound (p : Progress) : Type 0 where
  pub live : p.manifest.status ≡ running
  pub cause : p.manifest.failure ≡ none
  pub accepted : check_manifest p.manifest ≡ none
  pub written : Accepted p.written

abbrev pub GatedPost : Gated → Type 0
GatedPost (next p) = IsSound p
GatedPost (run_node p) = IsSound p
GatedPost (stopped e p) = IsSound p

-- The entry of a step that has not run.
abbrev pub IsFresh : String → Manifest → Type 0
IsFresh id m =
    (step : Step) × (find_step id m.steps ≡ some step)
    × (step.attempts ≡ [])
    × ((step.items ≡ none) ⊎ (step.items ≡ some []))

skip_step_passes :
    (reason : SkipReason) (step : Step)
    → step.attempts ≡ []
    → (step.items ≡ none) ⊎ (step.items ≡ some [])
    → check_step running (skip_step reason step) ≡ none
unfolding check_step skip_step check_items check_items_from
skip_step_passes reason step none_yet (inl e) =
    rw (none_yet, e) (ground (arith, validate-nil skipped))
skip_step_passes reason step none_yet (inr e) =
    rw (none_yet, e) (ground (arith, validate-nil skipped))

check_manifest-mark_step_skipped :
    (id : String) (reason : SkipReason) (m : Manifest)
    → m.status ≡ running
    → m.failure ≡ none
    → IsFresh id m
    → check_manifest m ≡ none
    → check_manifest (mark_step_skipped id reason m) ≡ none
unfolding check_manifest check_failure mark_step_skipped
check_manifest-mark_step_skipped id reason m live cause (step, found, none_yet, items) h =
    let steps : first_error (check_step running) m.steps ≡ none = ground arith in
    let after =
      check-update_step id (skip_step reason) running m.steps step found steps
        (skip_step_passes reason step none_yet items) in
    ground arith

module _ (c : Values) (write : ℕ → Option String) (error_text : ResolveError → String) where
  pub save_next_cases :
      (p : Progress)
      → ((e : String) × (save_next c write error_text p ≡ stopped (GateError.not_written e) p))
        ⊎ (save_next c write error_text p
            ≡ next (record p { written = p.written ++ p.manifest ∷ [] }))
  unfolding save_next
  save_next_cases p = elim (Option-cases (write (length p.written))) [
    | inl fine ↦ inr (ground arith)
    | inr (e, bad) ↦ inl (e, ground arith)
  ]

  save_next-post : (p : Progress) → IsSound p → GatedPost (save_next c write error_text p)
  save_next-post p s = elim (save_next_cases p) [
    | inl (e, same) ↦ rw same s
    | inr same ↦ rw same (record {
      live = s.live;
      cause = s.cause;
      accepted = s.accepted;
      written = Accepted-snoc p.written p.manifest s.written s.accepted;
    })
  ]

  skip_node-post :
      (p : Progress) (node : GraphNode) (reason : SkipReason)
      → IsSound p
      → (((node.kind =ₛ "step") || (node.kind =ₛ "map")) ≡ true → IsFresh node.id p.manifest)
      → GatedPost (skip_node c write error_text p node reason)
  unfolding skip_node mark_decision_skipped check_manifest mark_step_skipped
  skip_node-post p node reason s fresh =
      elim (Bool-cases ((node.kind =ₛ "step") || (node.kind =ₛ "map"))) [
        | inl runs ↦ rw runs (
            save_next-post _ (record {
              live = s.live;
              cause = s.cause;
              accepted =
                  check_manifest-mark_step_skipped node.id reason p.manifest s.live s.cause
                    (fresh runs) s.accepted;
              written = s.written;
            }))
        | inr control ↦ elim (Bool-cases (node.kind =ₛ "decision")) [
          | inl decision ↦
              rw (control, decision)
                (save_next-post _ (record {
                  live = s.live;
                  cause = s.cause;
                  accepted = s.accepted;
                  written = s.written;
                }))
          | inr other ↦ elim (Bool-cases (node.kind =ₛ "select")) [
            | inl select ↦ rw (control, other, select) (save_next-post p s)
            | inr unknown ↦ rw (control, other, unknown) s
          ]
        ]
      ]

  gate_decision-post :
      (p : Progress) (node : GraphNode) (routed : Resolved (String × Resolver))
      → IsSound p
      → GatedPost (gate_decision c write error_text p node routed)
  unfolding gate_decision mark_decision_failed mark_decision_selected check_manifest
  gate_decision-post p node (err e) s = record {
    live = s.live;
    cause = s.cause;
    accepted = s.accepted;
    written = s.written;
  }
  gate_decision-post p node (ok routed) s =
      save_next-post _
        (record { live = s.live; cause = s.cause; accepted = s.accepted; written = s.written })

  gate_select-post :
      (p : Progress) (chosen : Resolved Resolver)
      → IsSound p
      → GatedPost (gate_select c write error_text p chosen)
  unfolding gate_select
  gate_select-post p (err e) s = s
  gate_select-post p (ok r) s = record {
    live = s.live;
    cause = s.cause;
    accepted = s.accepted;
    written = s.written;
  }

  active_node-post :
      (p : Progress) (node : GraphNode)
      → IsSound p
      → GatedPost (active_node c write error_text p node)
  unfolding active_node
  active_node-post p node s = elim (Bool-cases (node.kind =ₛ "decision")) [
    | inl decision ↦ rw decision (gate_decision-post p node (route_decision c p.resolver node) s)
    | inr a ↦ elim (Bool-cases (node.kind =ₛ "select")) [
      | inl select ↦ rw (a, select) (gate_select-post p (select_output p.resolver node) s)
      | inr b ↦ elim (Bool-cases ((node.kind =ₛ "start") || (node.kind =ₛ "end"))) [
        | inl edge ↦ rw (a, b, edge) s
        | inr d ↦ elim (Bool-cases ((node.kind =ₛ "map") || (node.kind =ₛ "step"))) [
          | inl runs ↦ rw (a, b, d, runs) s
          | inr unknown ↦ rw (a, b, d, unknown) s
        ]
      ]
    ]
  ]

  gate_reason-post :
      (p : Progress) (node : GraphNode) (reason : Resolved (Option SkipReason))
      → IsSound p
      → (((node.kind =ₛ "step") || (node.kind =ₛ "map")) ≡ true → IsFresh node.id p.manifest)
      → GatedPost (gate_reason c write error_text p node reason)
  unfolding gate_reason
  gate_reason-post p node (err e) s fresh = s
  gate_reason-post p node (ok none) s fresh = active_node-post p node s
  gate_reason-post p node (ok (some reason)) s fresh =
      skip_node-post (deactivated c write error_text p node reason) node reason
        (record { live = s.live; cause = s.cause; accepted = s.accepted; written = s.written })
        fresh

  pub gate_node-post :
      (p : Progress) (node : GraphNode)
      → IsSound p
      → (((node.kind =ₛ "step") || (node.kind =ₛ "map")) ≡ true → IsFresh node.id p.manifest)
      → GatedPost (gate_node c write error_text p node)
  unfolding gate_node
  gate_node-post p node s fresh =
      gate_reason-post p node (activation_skip_reason p.resolver node) s fresh
