-- ===== src/Runner/GateRecords.antt =====
-- internal/orchestrator/orchestrator.go, the node loop of `Run`: what the journal records of a node
-- that is skipped, and of a decision.
use massive.Base.{
  ℕ, String, ◌≡◌, refl, ap, ◌∙◌, Option, none, some, Bool-cases, true, ◌||◌, ◌=ₛ◌, inl, inr,
}
use massive.Journal.Data.{SkipReason, Manifest}
use massive.Journal.Marks.{
  find_step, skip_step, mark_step_skipped, mark_decision_skipped, mark_decision_failed,
  mark_decision_selected,
}
use massive.Journal.Steps.{find_step-update_step}
use massive.Plan.Graph.{GraphNode}
use massive.Runner.Inputs.{Values, Resolver, ResolveError, Resolved, ok, err}
use massive.Runner.Routes.{route_decision, select_output}
use massive.Runner.Activation.{activation_skip_reason}
use massive.Runner.Gate.{
  Progress, Gated, save_next, deactivated, skip_node, gate_decision, gate_select, active_node,
  gate_reason, gate_node,
}
use massive.Runner.GateJournal.{IsSound, IsFresh, GatedPost, save_next_cases, gate_node-post}
use massive.Runner.GateRecord.{
  runs, progress_of, Saved, SkipRecord, step_skipped, decision_skipped, not_recorded, ActiveRecord,
  selected, unroutable, unchanged, GateRecord,
}

module _ (c : Values) (write : ℕ → Option String) (error_text : ResolveError → String) where
  -- save_next keeps all but the list of what was written
  record SavedAs (p : Progress) (g : Gated) : Type 0 where
    same_journal : (progress_of g).manifest ≡ p.manifest
    same_resolver : (progress_of g).resolver ≡ p.resolver
    saved : Saved p.written g

  save_next-SavedAs : (p : Progress) → SavedAs p (save_next c write error_text p)
  save_next-SavedAs p = elim (save_next_cases c write error_text p) [
    | inl (e, same) ↦ rw same (record { same_journal = refl; same_resolver = refl; saved = refl })
    | inr same ↦ rw same (record { same_journal = refl; same_resolver = refl; saved = refl })
  ]

  skip_node-SkipRecord :
      (p : Progress) (node : GraphNode) (reason : SkipReason)
      → (runs node ≡ true → IsFresh node.id p.manifest)
      → SkipRecord node reason p.manifest p.written (skip_node c write error_text p node reason)
        × ((progress_of (skip_node c write error_text p node reason)).resolver ≡ p.resolver)
  unfolding skip_node mark_step_skipped mark_decision_skipped skip_step
  skip_node-SkipRecord p node reason fresh = elim (Bool-cases (runs node)) [
    | inl run ↦
        let (step, found, none_yet, items) = fresh run in
        let s =
          save_next-SavedAs (record p { manifest = mark_step_skipped node.id reason p.manifest }) in
        rw run (
          step_skipped step run found
              (ap (λ (m : Manifest). find_step node.id m.steps) s.same_journal
                ∙ find_step-update_step node.id (skip_step reason) p.manifest.steps step found refl)
              (ap (λ (m : Manifest). m.decisions) s.same_journal) s.saved,
          s.same_resolver,
        )
    | inr control ↦ elim (Bool-cases (node.kind =ₛ "decision")) [
      | inl decision ↦
          let s =
            save_next-SavedAs
              (record p { manifest = mark_decision_skipped node.id reason p.manifest }) in
          rw (control, decision)
            (
              decision_skipped decision (ap (λ (m : Manifest). m.steps) s.same_journal)
                  (ap (λ (m : Manifest). m.decisions) s.same_journal) s.saved,
              s.same_resolver,
            )
      | inr other ↦ elim (Bool-cases (node.kind =ₛ "select")) [
        | inl select ↦
            let s = save_next-SavedAs p in
            rw (control, other, select)
              (not_recorded control other s.same_journal s.saved, s.same_resolver)
        | inr unknown ↦ rw (control, other, unknown) (not_recorded control other refl refl, refl)
      ]
    ]
  ]

  gate_decision-ActiveRecord :
      (p : Progress) (node : GraphNode) (route : Resolved (String × Resolver))
      → (node.kind =ₛ "decision") ≡ true
      → route_decision c p.resolver node ≡ route
      → ActiveRecord c error_text node p (gate_decision c write error_text p node route)
  unfolding gate_decision mark_decision_failed mark_decision_selected
  gate_decision-ActiveRecord p node (err e) decision route =
      unroutable e decision route refl refl refl
  gate_decision-ActiveRecord p node (ok (tag, routed)) decision route =
      let s = save_next-SavedAs (record p {
        resolver = routed;
        manifest = mark_decision_selected node.id tag p.manifest;
      }) in
      selected tag routed decision route s.same_resolver
        (ap (λ (m : Manifest). m.steps) s.same_journal)
        (ap (λ (m : Manifest). m.decisions) s.same_journal) s.saved

  gate_select_keeps :
      (p : Progress) (chosen : Resolved Resolver)
      → ((progress_of (gate_select c write error_text p chosen)).manifest ≡ p.manifest)
        × ((progress_of (gate_select c write error_text p chosen)).written ≡ p.written)
  unfolding gate_select
  gate_select_keeps p (err e) = (refl, refl)
  gate_select_keeps p (ok r) = (refl, refl)

  active_node-ActiveRecord :
      (p : Progress) (node : GraphNode)
      → ActiveRecord c error_text node p (active_node c write error_text p node)
  unfolding active_node
  active_node-ActiveRecord p node = elim (Bool-cases (node.kind =ₛ "decision")) [
    | inl decision ↦
        rw decision
          (gate_decision-ActiveRecord p node (route_decision c p.resolver node) decision refl)
    | inr a ↦ elim (Bool-cases (node.kind =ₛ "select")) [
      | inl select ↦
          let (journal, written) = gate_select_keeps p (select_output p.resolver node) in
          rw (a, select) (unchanged a journal written)
      | inr b ↦ elim (Bool-cases ((node.kind =ₛ "start") || (node.kind =ₛ "end"))) [
        | inl edge ↦ rw (a, b, edge) (unchanged a refl refl)
        | inr d ↦ elim (Bool-cases ((node.kind =ₛ "map") || (node.kind =ₛ "step"))) [
          | inl run ↦ rw (a, b, d, run) (unchanged a refl refl)
          | inr unknown ↦ rw (a, b, d, unknown) (unchanged a refl refl)
        ]
      ]
    ]
  ]

  gate_reason-GateRecord :
      (p : Progress) (node : GraphNode) (reason : Resolved (Option SkipReason))
      → (runs node ≡ true → IsFresh node.id p.manifest)
      → GateRecord c error_text node p reason (gate_reason c write error_text p node reason)
  unfolding gate_reason
  gate_reason-GateRecord p node (err e) fresh = refl
  gate_reason-GateRecord p node (ok none) fresh = active_node-ActiveRecord p node
  gate_reason-GateRecord p node (ok (some reason)) fresh =
      let off = deactivated c write error_text p node reason in
      let (journal, resolver) = skip_node-SkipRecord off node reason fresh in
      (journal, ap (λ (r : Resolver). r.inactive) resolver)

  -- Whatever the resolver decides and the store answers, when the loop over nodes passes its
  -- gate for a node whose entry, where it is a step or a map, has not run, the journal of a run
  -- without a fatal cause that is not over keeps passing the checks that Parse makes after its
  -- JSON schema, also after an error, and so do all journals that it wrote. A skipped step or
  -- decision is recorded with the reason, a routed decision with its case and one without a case
  -- as failed, a skipped node is inactive for its reason, and other nodes leave the journal as
  -- it is.
  pub gate_node_sound :
      (p : Progress) (node : GraphNode)
      → IsSound p
      → (((node.kind =ₛ "step") || (node.kind =ₛ "map")) ≡ true → IsFresh node.id p.manifest)
      → GatedPost (gate_node c write error_text p node)
        × GateRecord c error_text node p
            (activation_skip_reason p.resolver node)
            (gate_node c write error_text p node)
  unfolding gate_node
  gate_node_sound p node s fresh = (
    gate_node-post c write error_text p node s fresh,
    gate_reason-GateRecord p node (activation_skip_reason p.resolver node) fresh,
  )
