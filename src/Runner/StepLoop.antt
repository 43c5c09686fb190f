-- ===== src/Runner/StepLoop.antt =====
-- The attempt loop of `Run` in internal/orchestrator/orchestrator.go for one node of kind "step".
-- What the loop calls is a `World`: the descriptor, the invoker, the wait, the journal's store, the
-- verification of the published output and the context. Observation callbacks are not modelled.
use Prim.Native.String
use massive.Base.{
  ℕ, zero, suc, ◌+◌, String, Option, none, some, List, [], ◌∷◌, ◌++◌, Bool, true, false, not, ◌&&◌,
  ltb, leb, if◌then◌else◌, pos, length,
}
use massive.Journal.Data.{
  FatalFailure, DataArtifact, PublishedArtifact, Step, Manifest, not_started,
}
use massive.Journal.Data
use massive.Journal.Marks.{
  find_step, never_tried, update_step, drop_last, mark_attempt_running, mark_attempt_retrying,
  mark_attempt_succeeded, mark_attempt_terminal,
}
use massive.Retry.Policy.{ExecutionPolicy, delay_before}
use massive.Retry.Outcome.{
  Outcome, Formats, is_succeeded, is_cancelled, is_infra_failed, retryable_outcome,
  durable_runner_diagnostic, runner_diagnostic,
}

pub data StepError : Type 0 where
  -- an error of a callee
  outside : String → StepError
  wrong_count : ℕ → StepError
  fatal_run : FatalFailure → StepError
  runner_failed : String → StepError

pub data Settlement : Type 0 where
  verified : PublishedArtifact → Settlement
  unverified : StepError → Settlement

-- Attempts count from 1. `write k` is the journal write after k earlier ones.
pub record World : Type 0 where
  pub describe : ℕ → Option StepError
  pub write : ℕ → Option StepError
  pub invoke : ℕ → List Outcome × Option StepError
  -- waitBeforeRetry before an attempt, for a delay
  pub wait : ℕ → ℕ → Option StepError
  -- settleInvocation of an attempt
  pub settle : ℕ → Settlement
  -- ctx.Err() after an attempt
  pub stopped : ℕ → Option StepError

-- the journal in memory, and the journals that were written
pub record Loop : Type 0 where
  pub manifest : Manifest
  pub written : List Manifest

pub data Flow (A : Type 0) : Type 0 where
  go : A → Flow A
  stop : StepError → Loop → Flow A
  panic : Flow A

infixl 5 ◌>>=◌
abbrev pub ◌>>=◌ : {A B : Type 0} → Flow A → (A → Flow B) → Flow B
go a >>= f = f a
stop e s >>= f = stop e s
panic >>= f = panic

pub data Round : Type 0 where
  again : Loop → Round
  finished : PublishedArtifact → Loop → Round

pub data Ended : Type 0 where
  settled : PublishedArtifact → Loop → Ended
  failed : StepError → Loop → Ended
  panicked out_of_fuel : Ended

-- `if err := ...; err != nil { return nil, err }`
unfoldable pub check_error : Option StepError → Loop → Flow Loop
check_error none s = go s
check_error (some e) s = stop e s

abbrev pub is_nil : Option StepError → Bool
is_nil none = true
is_nil (some e) = false

unfoldable pub attempt_suffix : Formats → ℕ → ExecutionPolicy → String
attempt_suffix fmt attempt policy =
    if leb policy.max_attempts 1
    then ""
    else String.◌++◌ " (attempt " (
        String.◌++◌ (fmt.decimal (pos attempt))
          (String.◌++◌ " of " (String.◌++◌ (fmt.decimal (pos policy.max_attempts)) ")")))

-- the first of two errors that is not nil, or else the third
abbrev pub first_cause : Option StepError → Option StepError → StepError → StepError
first_cause (some e) f g = e
first_cause none (some e) g = e
first_cause none none g = g

abbrev pub dropped_status : List Data.Attempt → Data.Status → Data.Status
dropped_status [] status = not_started
dropped_status (a ∷ rest) status = status

unfoldable pub drop_attempt : Step → Step
drop_attempt step = record step {
  status = dropped_status (drop_last step.attempts) step.status;
  attempts = drop_last step.attempts;
}

-- whether `step.Attempts[:len(step.Attempts)-1]` is out of range, or `step` is nil
unfoldable pub has_no_attempt : Option Step → Bool
has_no_attempt none = true
has_no_attempt (some step) = never_tried (some step)

-- what stays fixed in the loop: the node, its input artifact and its policy
pub record Task : Type 0 where
  pub fmt : Formats
  pub world : World
  pub policy : ExecutionPolicy
  pub id : String
  pub input : DataArtifact

module _ (task : Task) where
  open task use {fmt, world, policy, id, input}

  -- writeRunManifest
  unfoldable pub save : Loop → Flow Loop
  save s = elim (world.write (length s.written)) [
    | some e ↦ stop e s
    | none ↦ go (record s { written = s.written ++ s.manifest ∷ [] })
  ]

  abbrev pub with_manifest : Loop → Manifest → Loop
  with_manifest s m = record s { manifest = m }

  -- the status and the diagnostic that the journal records for a failed outcome
  unfoldable pub end_status : Outcome → Data.Status
  end_status o = if is_cancelled o.status then Data.cancelled else Data.failed

  unfoldable pub end_diagnostic : Outcome → String
  end_diagnostic o =
      if is_infra_failed o.status
      then "invocation infrastructure failed"
      else (if is_cancelled o.status
          then "invocation cancelled"
          else durable_runner_diagnostic fmt o)

  -- the error that a failed outcome is returned as
  unfoldable pub outcome_error : ℕ → Outcome → Option StepError → StepError
  outcome_error attempt o invoke_error = elim o.fatal [
    | some failure ↦ fatal_run failure
    | none ↦
        first_cause invoke_error (if is_cancelled o.status then world.stopped attempt else none) (
          runner_failed (String.◌++◌ (runner_diagnostic fmt o) (attempt_suffix fmt attempt policy)))
  ]

  unfoldable pub fail_outcome : ℕ → Outcome → Option StepError → Loop → Flow Round
  fail_outcome attempt o invoke_error s =
      if is_nil invoke_error && ltb attempt policy.max_attempts && retryable_outcome o
      then (do
        s' ← save (with_manifest s (mark_attempt_retrying id (end_diagnostic o) s.manifest))
        s'' ← check_error (world.wait (attempt + 1) (delay_before policy (attempt + 1))) s'
        go (again s''))
      else stop (outcome_error attempt o invoke_error)
          (with_manifest s (mark_attempt_terminal id (end_status o) (end_diagnostic o) s.manifest))

  unfoldable pub record_success :
      PublishedArtifact → Option StepError → Option Manifest → Loop → Flow Round
  record_success output invoke_error none s = panic
  record_success output invoke_error (some m) s = do
    s' ← save (with_manifest s m)
    s'' ← check_error invoke_error s'
    go (finished output s'')

  unfoldable pub settle_success : Settlement → Option StepError → Loop → Flow Round
  settle_success (unverified e) invoke_error s = stop e (
      with_manifest s
        (mark_attempt_terminal id Data.failed "output verification failed" s.manifest))
  settle_success (verified output) invoke_error s =
      record_success output invoke_error (mark_attempt_succeeded id output s.manifest) s

  unfoldable pub after_invoke : ℕ → List Outcome → Option StepError → Loop → Flow Round
  after_invoke attempt [] (some e) s =
      if has_no_attempt (find_step id s.manifest.steps)
      then panic
      else stop e (
          with_manifest s
            (record s.manifest { steps = update_step id drop_attempt s.manifest.steps }))
  after_invoke attempt [] none s = stop (wrong_count 0) s
  after_invoke attempt (o ∷ []) invoke_error s =
      if not (is_succeeded o.status)
      then fail_outcome attempt o invoke_error s
      else settle_success (world.settle attempt) invoke_error s
  after_invoke attempt (o ∷ p ∷ rest) invoke_error s = stop (wrong_count (length rest + 2)) s

  -- the body of the loop
  unfoldable pub one_attempt : ℕ → Loop → Flow Round
  one_attempt attempt s = do
    s' ← check_error (world.describe attempt) s
    s'' ← save (with_manifest s' (mark_attempt_running id attempt input s'.manifest))
    after_invoke attempt (world.invoke attempt).0 (world.invoke attempt).1 s''

  -- `for attempt := 1; ; attempt++`
  unfoldable pub run_attempts : ℕ → ℕ → Loop → Ended
  run_attempts zero attempt s = out_of_fuel
  run_attempts (suc fuel) attempt s = elim (one_attempt attempt s) [
    | go (again s') ↦ run_attempts fuel (attempt + 1) s'
    | go (finished output s') ↦ settled output s'
    | stop e s' ↦ failed e s'
    | panic ↦ panicked
  ]

  unfoldable pub run_step : Loop → Ended
  run_step s = run_attempts (suc policy.max_attempts) 1 s
