-- ===== src/Journal/Marks.antt =====
-- internal/orchestrator/orchestrator.go: the functions that write the journal of a run.
-- `findManifestStep` returns a pointer to the first step with the node's id; here the step is
-- replaced in place. A write through a nil `lastAttempt` is a panic, `none`.
use massive.Base.{
  ℕ, zero, suc, String, Option, none, some, List, [], ◌∷◌, ◌++◌, Bool, true, false, ◌=ₛ◌,
  if◌then◌else◌, map,
}
use massive.Journal.Data.{
  Status, Attempt, Step, SkipReason, DataArtifact, PublishedArtifact, Manifest, pending, running,
  succeeded, failed, skipped,
}

module _ {ℓ} {A : Type ℓ} where
  -- a write through `&xs[len(xs)-1]`, with no effect on an empty slice
  unfoldable pub update_last : (A → A) → List A → List A
  update_last f [] = []
  update_last f (x ∷ []) = f x ∷ []
  update_last f (x ∷ y ∷ rest) = x ∷ update_last f (y ∷ rest)

  -- `xs[:len(xs)-1]`
  unfoldable pub drop_last : List A → List A
  drop_last [] = []
  drop_last (x ∷ []) = []
  drop_last (x ∷ y ∷ rest) = x ∷ drop_last (y ∷ rest)

  -- a write through `&xs[index]`, behind the test `index < len(xs)`
  unfoldable pub update_at : ℕ → (A → A) → List A → List A
  update_at index f [] = []
  update_at zero f (x ∷ xs) = f x ∷ xs
  update_at (suc index) f (x ∷ xs) = x ∷ update_at index f xs

unfoldable pub find_step : String → List Step → Option Step
find_step id [] = none
find_step id (step ∷ rest) = if step.node_id =ₛ id then some step else find_step id rest

unfoldable pub update_step : String → (Step → Step) → List Step → List Step
update_step id f [] = []
update_step id f (step ∷ rest) =
    if step.node_id =ₛ id then f step ∷ rest else step ∷ update_step id f rest

abbrev pub no_artifact : DataArtifact
no_artifact = record { key = ""; hash = ""; content_type = ""; schema = "" }

abbrev pub new_attempt : ℕ → DataArtifact → Attempt
new_attempt attempt input = record {
  attempt = attempt;
  status = running;
  input = input;
  output = none;
  diagnostic = "";
}

-- the single attempt of an entry that ended before any dispatch
abbrev pub lone_attempt : Status → String → Attempt
lone_attempt status diagnostic = record {
  attempt = 1;
  status = status;
  input = no_artifact;
  output = none;
  diagnostic = diagnostic;
}

unfoldable pub start_attempt : ℕ → DataArtifact → Step → Step
start_attempt attempt input step = record step {
  status = running;
  attempts = step.attempts ++ new_attempt attempt input ∷ [];
}

unfoldable pub retry_attempts : String → List Attempt → List Attempt
retry_attempts diagnostic attempts =
    update_last (λ a. record a { status = failed; diagnostic = diagnostic }) attempts

unfoldable pub retry_attempt : String → Step → Step
retry_attempt diagnostic step = record step { attempts = retry_attempts diagnostic step.attempts }

unfoldable pub succeed_attempts : PublishedArtifact → List Attempt → List Attempt
succeed_attempts output attempts =
    update_last (λ a. record a { status = succeeded; output = some output }) attempts

unfoldable pub succeed_attempt : PublishedArtifact → Step → Step
succeed_attempt output step = record step {
  status = succeeded;
  attempts = succeed_attempts output step.attempts;
}

unfoldable pub end_attempts : Status → String → List Attempt → List Attempt
end_attempts status diagnostic [] = lone_attempt status diagnostic ∷ []
end_attempts status diagnostic (a ∷ rest) =
    update_last (λ b. record b { status = status; diagnostic = diagnostic }) (a ∷ rest)

unfoldable pub end_attempt : Status → String → Step → Step
end_attempt status diagnostic step = record step {
  status = status;
  attempts = end_attempts status diagnostic step.attempts;
}

unfoldable pub mark_attempt_running : String → ℕ → DataArtifact → Manifest → Manifest
mark_attempt_running id attempt input m = record m {
  steps = update_step id (start_attempt attempt input) m.steps;
}

unfoldable pub mark_attempt_retrying : String → String → Manifest → Manifest
mark_attempt_retrying id diagnostic m = record m {
  steps = update_step id (retry_attempt diagnostic) m.steps;
}

-- whether `lastAttempt(step.Attempts)` is nil
abbrev pub never_tried : Option Step → Bool
never_tried none = false
never_tried (some step) = elim step.attempts [ [] ↦ true | a ∷ rest ↦ false ]

unfoldable pub mark_attempt_succeeded : String → PublishedArtifact → Manifest → Option Manifest
mark_attempt_succeeded id output m =
    if never_tried (find_step id m.steps)
    then none
    else some (record m { steps = update_step id (succeed_attempt output) m.steps })

unfoldable pub mark_attempt_terminal : String → Status → String → Manifest → Manifest
mark_attempt_terminal id status diagnostic m = record m {
  steps = update_step id (end_attempt status diagnostic) m.steps;
}

unfoldable pub skip_step : SkipReason → Step → Step
skip_step reason step = record step { status = skipped; skip_reason = some reason }

unfoldable pub mark_step_skipped : String → SkipReason → Manifest → Manifest
mark_step_skipped id reason m = record m { steps = update_step id (skip_step reason) m.steps }

unfoldable pub mark_decision_failed : String → String → Manifest → Manifest
mark_decision_failed id diagnostic m = record m {
  decisions =
      m.decisions
      ++ record {
        node_id = id;
        status = "failed";
        selected_case = "";
        diagnostic = diagnostic;
        skip_reason = none;
      }
        ∷ [];
}

unfoldable pub mark_decision_skipped : String → SkipReason → Manifest → Manifest
mark_decision_skipped id reason m = record m {
  decisions =
      m.decisions
      ++ record {
        node_id = id;
        status = "skipped";
        selected_case = "";
        diagnostic = "";
        skip_reason = some reason;
      }
        ∷ [];
}

-- `runjournal.Decision{Status: "selected"}`, as Run appends it
unfoldable pub mark_decision_selected : String → String → Manifest → Manifest
mark_decision_selected id case m = record m {
  decisions =
      m.decisions
      ++ record {
        node_id = id;
        status = "selected";
        selected_case = case;
        diagnostic = "";
        skip_reason = none;
      }
        ∷ [];
}

pub record StepSummary : Type 0 where
  pub node_id : String
  pub status : Status
  pub diagnostic : String

unfoldable pub last_diagnostic : List Attempt → String
last_diagnostic [] = ""
last_diagnostic (a ∷ []) = a.diagnostic
last_diagnostic (a ∷ b ∷ rest) = last_diagnostic (b ∷ rest)

unfoldable pub summaries_from_manifest : Manifest → List StepSummary
summaries_from_manifest m =
    map
      (λ step. record {
        node_id = step.node_id;
        status = step.status;
        diagnostic = last_diagnostic step.attempts;
      })
      m.steps

-- the entry of a step that has not run; a map has an empty list of items
abbrev pub new_step : String → Bool → String → Step
new_step id is_map item_failures = record {
  node_id = id;
  status = pending;
  attempts = [];
  items = if is_map then some [] else none;
  item_failures = if is_map then item_failures else "";
  skip_reason = none;
}
