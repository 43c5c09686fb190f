-- ===== src/Journal/MapFailed.antt =====
-- internal/orchestrator/orchestrator.go, `failMapNode`, against the checks of the reader.
use massive.Base.{
  ℕ, ◌+◌, String, ◌≡◌, refl, ap, Option, none, some, List, [], ◌∷◌, map, Bool, true, arith,
  if◌then◌else◌, All, ⨾_passes, first_error,
}
use massive.Journal.Data.{
  Status, Attempt, MapItem, Step, Manifest, running, failed, cancelled, not_started,
}
use massive.Journal.Read.{
  check_dense, last_status, check_last, validate_attempts, check_item, check_items_from,
  check_items, check_step, check_failure, check_manifest, has_next,
}
use massive.Journal.Marks.{
  update_last, update_step, find_step, end_attempts, end_attempt, mark_attempt_terminal,
  lone_attempt,
}
use massive.Journal.MapMarks.{
  with_items, close_attempt, close_unfinished, mark_unfinished_map_items_terminal, fail_map_node,
}
use massive.Journal.TerminatedEntries.{IsStop, ItemIsShaped, ItemsAreShaped, StepIsShaped}
use massive.Journal.Steps.{check-update_step}

has_next-update_last :
    (f : Attempt → Attempt) (a : Attempt) (rest : List Attempt)
    → has_next (update_last f (a ∷ rest)) ≡ true
unfolding update_last
has_next-update_last f a [] = refl
has_next-update_last f a (b ∷ rest) = refl

check_dense-update_last :
    (f : Attempt → Attempt) (i : ℕ) (tries : List Attempt)
    → ((a : Attempt) → (f a).attempt ≡ a.attempt)
    → check_dense i tries ≡ none
    → check_dense i (update_last f tries) ≡ none
unfolding check_dense update_last
check_dense-update_last f i [] same h = refl
check_dense-update_last f i (a ∷ []) same h = ground (arith, same a)
check_dense-update_last f i (a ∷ b ∷ rest) same h =
    let later : check_dense (i + 1) (b ∷ rest) ≡ none = ground arith in
    ground (
      arith,
      has_next-update_last f b rest,
      check_dense-update_last f (i + 1) (b ∷ rest) same later,
    )

last_status-update_last :
    (f : Attempt → Attempt) (status : Status) (a : Attempt) (rest : List Attempt)
    → ((b : Attempt) → (f b).status ≡ status)
    → last_status (update_last f (a ∷ rest)) ≡ some status
unfolding last_status update_last
last_status-update_last f status a [] same = ap some (same a)
last_status-update_last f status a (b ∷ []) same = ap some (same b)
last_status-update_last f status a (b ∷ c ∷ rest) same =
    last_status-update_last f status b (c ∷ rest) same

only_ended :
    (status : Status) (d : String) → validate_attempts (lone_attempt status d ∷ []) status ≡ none
unfolding validate_attempts check_dense check_last last_status
only_ended status d = ground arith

-- the attempts of an entry that ends
validate-end_attempts :
    (status : Status) (d : String) (tries : List Attempt) (before : Status)
    → validate_attempts tries before ≡ none
    → validate_attempts (end_attempts status d tries) status ≡ none
unfolding validate_attempts end_attempts check_last
validate-end_attempts status d [] before h = only_ended status d
validate-end_attempts status d (a ∷ rest) before h =
    let ended = λ (b : Attempt). record b { status = status; diagnostic = d } in
    let (dense, _) = (⨾_passes (check_dense 0 (a ∷ rest)) _).0 h in
    (⨾_passes (check_dense 0 (update_last ended (a ∷ rest))) _).1 (
      check_dense-update_last ended 0 (a ∷ rest) (λ b. refl) dense,
      rw (last_status-update_last ended status a rest (λ b. refl)) (ground arith),
    )

check_last-close_attempt :
    (status : Status) (tries : List Attempt)
    → IsStop status
    → check_last (last_status tries) running ≡ none
    → check_last (last_status (update_last (close_attempt status) tries)) status ≡ none
unfolding check_last last_status update_last close_attempt
check_last-close_attempt status [] stop h = refl
check_last-close_attempt status (a ∷ []) stop h = ground arith
check_last-close_attempt status (a ∷ b ∷ []) stop h = ground arith
check_last-close_attempt status (a ∷ b ∷ c ∷ rest) stop h =
    check_last-close_attempt status (b ∷ c ∷ rest) stop h

close_attempt-number :
    (status : Status) (a : Attempt) → (close_attempt status a).attempt ≡ a.attempt
unfolding close_attempt
close_attempt-number status a = ground arith

validate-close_attempt :
    (status : Status) (tries : List Attempt)
    → IsStop status
    → validate_attempts tries running ≡ none
    → validate_attempts (update_last (close_attempt status) tries) status ≡ none
unfolding validate_attempts
validate-close_attempt status tries stop h =
    let (dense, last) = (⨾_passes (check_dense 0 tries) _).0 h in
    (⨾_passes (check_dense 0 (update_last (close_attempt status) tries)) _).1 (
      check_dense-update_last (close_attempt status) 0 tries (close_attempt-number status) dense,
      check_last-close_attempt status tries stop last,
    )

no_attempts : (status : Status) → validate_attempts [] status ≡ none
unfolding validate_attempts check_dense last_status check_last
no_attempts status = refl

closed_item :
    (status : Status) (step step' : Step) (i : ℕ) (item : MapItem)
    → IsStop status
    → ItemIsShaped item
    → step.status ≡ running
    → step'.status ≡ status
    → check_item step i item ≡ none
    → check_item step' i (close_unfinished status item) ≡ none
unfolding check_item close_unfinished
closed_item status step step' i item stop shaped r s h =
    ground (arith, validate-close_attempt status item.attempts, no_attempts not_started)

closed_items :
    (status : Status) (step step' : Step) (i : ℕ) (items : List MapItem)
    → IsStop status
    → All ItemIsShaped items
    → step.status ≡ running
    → step'.status ≡ status
    → check_items_from step i items ≡ none
    → check_items_from step' i (map (close_unfinished status) items) ≡ none
unfolding check_items_from
closed_items status step step' i [] stop shaped r s h = refl
closed_items status step step' i (item ∷ rest) stop shaped r s h =
    let (here, later) = (⨾_passes (check_item step i item) _).0 h in
    (⨾_passes (check_item step' i (close_unfinished status item)) _).1 (
      closed_item status step step' i item stop shaped.0 r s here,
      closed_items status step step' (i + 1) rest stop shaped.1 r s later,
    )

abbrev failed_step : Status → String → Step → Step
failed_step status d step = end_attempt status d (with_items (map (close_unfinished status)) step)

failed_items :
    (status : Status) (d : String) (step : Step) (items : Option (List MapItem))
    → step.items ≡ items
    → IsStop status
    → ItemsAreShaped items
    → step.status ≡ running
    → check_items step items ≡ none
    → check_items (failed_step status d step) (failed_step status d step).items ≡ none
unfolding check_items with_items end_attempt
failed_items status d step none e stop shaped r h = rw e refl
failed_items status d step (some items) e stop shaped r h =
    let inside : check_items_from step 0 items ≡ none = ground arith in
    let closed : check_items_from (failed_step status d step) 0
          (map (close_unfinished status) items)
        ≡ none =
      closed_items status step (failed_step status d step) 0 items stop shaped r refl inside in
    ground arith

with_items-attempts :
    (f : List MapItem → List MapItem) (step : Step)
    → ((with_items f step).attempts ≡ step.attempts) × ((with_items f step).node_id ≡ step.node_id)
unfolding with_items
with_items-attempts f step = (ground arith, ground arith)

failed_attempts :
    (status : Status) (d : String) (step : Step)
    → validate_attempts step.attempts step.status ≡ none
    → validate_attempts (failed_step status d step).attempts (failed_step status d step).status
      ≡ none
unfolding end_attempt
failed_attempts status d step h =
    rw (with_items-attempts (map (close_unfinished status)) step).0
      (validate-end_attempts status d step.attempts step.status h)

failed_step_passes :
    (status : Status) (d : String) (step : Step)
    → IsStop status
    → StepIsShaped step
    → step.status ≡ running
    → check_step running step ≡ none
    → check_step running (failed_step status d step) ≡ none
unfolding check_step
failed_step_passes status d step stop shaped r h =
    let tries : validate_attempts step.attempts step.status ≡ none = ground arith in
    let items : check_items step step.items ≡ none = ground arith in
    let tries' = failed_attempts status d step tries in
    let items' = failed_items status d step step.items refl stop shaped.1 r items in
    ground (arith, tries', items')

update_step-fused :
    (id : String) (f g : Step → Step) (steps : List Step)
    → ((s : Step) → (g s).node_id ≡ s.node_id)
    → update_step id f (update_step id g steps) ≡ update_step id (λ s. f (g s)) steps
unfolding update_step
update_step-fused id f g [] same = refl
update_step-fused id f g (s ∷ rest) same =
    ground (arith, same s, update_step-fused id f g rest same)

find_step_passes :
    (id : String) (steps : List Step) (step : Step)
    → find_step id steps ≡ some step
    → first_error (check_step running) steps ≡ none
    → check_step running step ≡ none
unfolding find_step first_error
find_step_passes id [] step h all = cc
find_step_passes id (s ∷ rest) step h all = ground (arith, find_step_passes id rest step)

-- In a running journal without a fatal cause, in which a map step is running and pending entries
-- of the step have no attempts, failing the map, also after a cancellation, keeps the journal
-- passing the checks that Parse makes after its JSON schema.
pub check_manifest-fail_map_node :
    (is_stopped : Bool) (id d : String) (m : Manifest) (step : Step)
    → (m.status ≡ running) × (m.failure ≡ none)
    → find_step id m.steps ≡ some step
    → step.status ≡ running
    → StepIsShaped step
    → check_manifest m ≡ none
    → check_manifest (fail_map_node is_stopped id d m) ≡ none
unfolding check_manifest fail_map_node mark_attempt_terminal mark_unfinished_map_items_terminal
    check_failure
check_manifest-fail_map_node is_stopped id d m step live found r shaped h =
    let status = if is_stopped then cancelled else failed in
    let stop : IsStop status = ground arith in
    let (cause, rest) = (⨾_passes (check_failure m.failure m.steps) _).0 h in
    let (steps, hook) = (⨾_passes (first_error (check_step m.status) m.steps) _).0 rest in
    let steps' : first_error (check_step running) m.steps ≡ none = rw live.0 at steps in
    let f = with_items (map (close_unfinished status)) in
    let fused =
      update_step-fused id (end_attempt status d) f m.steps (λ s. (with_items-attempts _ s).1) in
    let here : check_step running step ≡ none = find_step_passes id m.steps step found steps' in
    let after =
      check-update_step id (failed_step status d) running m.steps step found steps'
        (failed_step_passes status d step stop shaped r here) in
    let after' : first_error (check_step running)
          (update_step id (end_attempt status d) (update_step id f m.steps))
        ≡ none =
      rw fused after in
    ground (arith, live, after', hook)
