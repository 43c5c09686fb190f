-- ===== src/Journal/Terminated.antt =====
-- internal/runjournal/manifest.go: `Terminate`, against the checks of `Parse`.
use massive.Base.{
  String, Option, none, some, List, [], ◌∷◌, true, ◌≡◌, inl, inr, refl, arith, map, ◌≢◌, All,
  fail_if, ⨾_passes, first_error, Bool-cases,
}
use massive.Journal.Data.{
  Status, MapItem, Step, FatalFailure, Manifest, ◌is◌, is_iff, pending, running,
}
use massive.Journal.Read.{
  validate_attempts, check_items_from, check_items, check_step, check_manifest, names_failed_item,
  has_failed_item, names_fatal, check_failure,
}
use massive.Journal.Terminate.{
  close_item, close_step, terminate_item, terminate_items, terminate_step, terminate,
}
use massive.Journal.TerminatedEntries.{
  IsStop, ItemsAreShaped, StepIsShaped, validate-terminate, validate-empty, open_items,
  settled_maybe, idle_maybe,
}

module _ (s : Status) (d : String) where
  terminate_step_status :
      (step : Step) → step.status ≡ running → (terminate_step s d step).status ≡ s
  unfolding terminate_step close_step
  terminate_step_status step r = ground arith

  open_maybe :
      (step : Step) (items : Option (List MapItem))
      → IsStop s
      → ItemsAreShaped items
      → step.status ≡ running
      → check_items step items ≡ none
      → check_items (terminate_step s d step) (terminate_items s d items) ≡ none
  unfolding terminate_items check_items
  open_maybe step none stop shaped r h = refl
  open_maybe step (some items) stop shaped r h = (⨾_passes (fail_if _ _) _).1 (
    ground (arith, terminate_step_status step r),
    open_items s d step 0 items stop shaped r ((⨾_passes _ _).0 h).1,
  )

  check_step_parts :
      (run : Status) (step : Step)
      → check_step run step ≡ none
      → (validate_attempts step.attempts step.status ≡ none) × (check_items step step.items ≡ none)
  unfolding check_step
  check_step_parts run step h = (ground arith, ground arith)

  -- A finished step is left as it is.
  terminate_step-finished :
      (step : Step)
      → check_step running step ≡ none
      → (step.status ≢ pending) × (step.status ≢ running)
      → terminate_step s d step ≡ step
  unfolding terminate_step close_step
  terminate_step-finished step h done =
      let (_, items) = check_step_parts running step h in
      ground (arith, settled_maybe s d step step.items, idle_maybe s d step step.items)

  pending_passes :
      (step : Step)
      → IsStop s
      → (step.attempts ≡ []) × (step.status ≡ pending)
      → check_step running step ≡ none
      → check_step s (terminate_step s d step) ≡ none
  unfolding check_step terminate_step close_step check_items check_items_from
  pending_passes step stop shape h =
      let (_, items) = check_step_parts running step h in
      let idle = idle_maybe s d step step.items (inl shape.1) items in
      ground (arith, idle, validate-empty s d)

  running_passes :
      (step : Step)
      → IsStop s
      → StepIsShaped step
      → step.status ≡ running
      → check_step running step ≡ none
      → check_step s (terminate_step s d step) ≡ none
  unfolding check_step terminate_step close_step
  running_passes step stop shaped r h =
      let (tries, items) = check_step_parts running step h in
      let tries' = validate-terminate s d step.attempts stop (rw r at tries) in
      let items' = open_maybe step step.items stop shaped.1 r items in
      ground (arith, tries', items')

  finished_passes :
      (step : Step)
      → IsStop s
      → (step.status ≢ pending) × (step.status ≢ running)
      → check_step running step ≡ none
      → check_step s (terminate_step s d step) ≡ none
  unfolding check_step
  finished_passes step stop done h = rw (terminate_step-finished step h done) (ground arith)

  terminate_step_passes :
      (step : Step)
      → IsStop s
      → StepIsShaped step
      → check_step running step ≡ none
      → check_step s (terminate_step s d step) ≡ none
  terminate_step_passes step stop shaped h = elim (Bool-cases (step.status is pending)) [
    | inl p ↦ let e = (is_iff step.status pending).0 p in pending_passes step stop (shaped.0 e, e) h
    | inr np ↦ elim (Bool-cases (step.status is running)) [
      | inl r ↦ running_passes step stop shaped ((is_iff step.status running).0 r) h
      | inr nr ↦ finished_passes step stop (ground arith, ground arith) h
    ]
  ]

  steps_pass :
      (steps : List Step)
      → IsStop s
      → All StepIsShaped steps
      → first_error (check_step running) steps ≡ none
      → first_error (check_step s) (map (terminate_step s d) steps) ≡ none
  unfolding first_error
  steps_pass [] stop shaped h = refl
  steps_pass (step ∷ rest) stop shaped h =
      let (here, later) = (⨾_passes (check_step running step) _).0 h in
      (⨾_passes (check_step s (terminate_step s d step)) _).1
        (terminate_step_passes step stop shaped.0 here, steps_pass rest stop shaped.1 later)

  -- A fatal cause still names its failed step.
  names_failed_item-terminate :
      (items : List MapItem)
      → names_failed_item items ≡ true
      → names_failed_item (map (terminate_item s d) items) ≡ true
  unfolding names_failed_item terminate_item close_item
  names_failed_item-terminate [] h = h
  names_failed_item-terminate (item ∷ rest) h = ground (arith, names_failed_item-terminate rest)

  has_failed_item-terminate :
      (items : Option (List MapItem))
      → has_failed_item items ≡ true
      → has_failed_item (terminate_items s d items) ≡ true
  unfolding has_failed_item terminate_items
  has_failed_item-terminate none h = h
  has_failed_item-terminate (some items) h = names_failed_item-terminate items h

  names_fatal-terminate :
      (failure : FatalFailure) (steps : List Step)
      → names_fatal failure steps ≡ true
      → names_fatal failure (map (terminate_step s d) steps) ≡ true
  unfolding names_fatal terminate_step close_step
  names_fatal-terminate failure [] h = h
  names_fatal-terminate failure (step ∷ rest) h =
      ground (arith, names_fatal-terminate failure rest, has_failed_item-terminate step.items)

  failure_passes :
      (failure : Option FatalFailure) (steps : List Step)
      → check_failure failure steps ≡ none
      → check_failure failure (map (terminate_step s d) steps) ≡ none
  unfolding check_failure
  failure_passes none steps h = refl
  failure_passes (some failure) steps h = ground (arith, names_fatal-terminate failure steps)

-- Stopping a running journal, whose pending entries have no attempts, as failed or cancelled
-- keeps it passing the checks that Parse makes after its JSON schema.
pub check_manifest-terminate :
    (m : Manifest) (s : Status) (d : String)
    → m.status ≡ running
    → All StepIsShaped m.steps
    → IsStop s
    → check_manifest m ≡ none
    → check_manifest (terminate s d m) ≡ none
unfolding check_manifest terminate
check_manifest-terminate m s d live shaped stop h =
    let (cause, rest) = (⨾_passes (check_failure m.failure m.steps) _).0 h in
    let (steps, hook) = (⨾_passes (first_error (check_step m.status) m.steps) _).0 rest in
    let steps' = steps_pass s d m.steps stop shaped (rw live at steps) in
    ground (arith, failure_passes s d m.failure m.steps cause, steps', hook)
