-- ===== src/Retry/Outcome.antt =====
-- Runner outcomes: what the invoker reports for one attempt, whether another attempt may help, and
-- which failures a collecting map keeps. Decimal and duration formatting and strings.ToValidUTF8
-- are Go's library, behind `Formats`.
use Prim.Native.String.{◌++◌}
use massive.Base.{
  ℕ, String, Option, none, some, List, Bool, true, false, not, ◌||◌, ◌=ₛ◌, ltb, if◌then◌else◌, ℤ,
  is_negative, ◌=ℤ◌,
}
use massive.Journal.Data.{FatalFailure}
use massive.MapExec.Failure.{Failure, FailureKind, new_failure}

-- the status strings of an outcome
pub data InvocationStatus : Type 0 where
  succeeded failed cancelled infra_failed : InvocationStatus

abbrev pub is_failed : InvocationStatus → Bool
is_failed failed = true
is_failed _ = false

abbrev pub is_succeeded : InvocationStatus → Bool
is_succeeded succeeded = true
is_succeeded _ = false

abbrev pub is_cancelled : InvocationStatus → Bool
is_cancelled cancelled = true
is_cancelled _ = false

abbrev pub is_infra_failed : InvocationStatus → Bool
is_infra_failed infra_failed = true
is_infra_failed _ = false

pub record MapItemScopeFrame : Type 0 where
  pub kind : String
  pub map_id : String
  pub index : ℤ

pub record Outcome : Type 0 where
  -- nanoseconds, as the invoker measured them
  pub duration : ℕ
  pub node_id : String
  pub attempt : ℕ
  -- the frames of the scope; a nil scope is none
  pub scope : Option (List MapItemScopeFrame)
  pub status : InvocationStatus
  pub exit_code : ℤ
  pub diagnostic : String
  pub fatal : Option FatalFailure
  pub runner_message : String
  -- nanoseconds; nonzero when the attempt was stopped at its deadline
  pub timed_out_after : ℕ

-- the runner exit codes
abbrev pub exit_descriptor_resolution : ℕ
exit_descriptor_resolution = 64

abbrev pub exit_schema_validation : ℕ
exit_schema_validation = 65

abbrev pub exit_step_execution : ℕ
exit_step_execution = 66

abbrev pub exit_non_retryable : ℕ
exit_non_retryable = 67

abbrev pub exit_fatal_run : ℕ
exit_fatal_run = 69

abbrev pub exit_infrastructure : ℕ
exit_infrastructure = 70

unfoldable pub retryable_outcome : Outcome → Bool
retryable_outcome o =
    if not (is_failed o.status)
    then false
    else not (
        (o.exit_code =ℤ exit_descriptor_resolution)
        || (o.exit_code =ℤ exit_schema_validation)
        || (o.exit_code =ℤ exit_non_retryable)
        || (o.exit_code =ℤ exit_fatal_run)
        || (o.exit_code =ℤ exit_infrastructure))

pub record Formats : Type 0 where
  -- `%d` of an int
  pub decimal : ℤ → String
  -- `%s` of a time.Duration
  pub duration : ℕ → String
  -- strings.ToValidUTF8(s, "\uFFFD")
  pub to_valid_utf8 : String → String

unfoldable pub exit_label : String → ℤ → String
exit_label fallback code =
    if code =ℤ exit_descriptor_resolution
    then "descriptor-resolution-failure"
    else (if code =ℤ exit_schema_validation
        then "schema-validation-failure"
        else (if code =ℤ exit_step_execution
            then "step-execution-failure"
            else (if code =ℤ exit_fatal_run
                then "fatal-run-failure"
                else (if code =ℤ exit_non_retryable
                    then "non-retryable-step-failure"
                    else fallback))))

unfoldable pub with_runner_message : String → String → String
with_runner_message summary message = if message =ₛ "" then summary else summary ++ ": " ++ message

module _ (fmt : Formats) where
  unfoldable pub runner_failure_summary : Outcome → String → String
  runner_failure_summary o fallback =
      if ltb 0 o.timed_out_after
      then "step-timeout (timed out after " ++ fmt.duration o.timed_out_after ++ ")"
      else (if is_negative o.exit_code
          then "runner-killed (signal)"
          else exit_label fallback o.exit_code ++ " (exit " ++ fmt.decimal o.exit_code ++ ")")

  unfoldable pub runner_diagnostic : Outcome → String
  runner_diagnostic o =
      let summary = runner_failure_summary o "runner failed" in
      if o.diagnostic =ₛ "" then summary else summary ++ ": " ++ o.diagnostic

  unfoldable pub durable_runner_diagnostic : Outcome → String
  durable_runner_diagnostic o = runner_failure_summary o "runner-failure"

  abbrev pub kept : FailureKind → ℕ → String → Option Failure
  kept kind attempt diagnostic = some (new_failure fmt.to_valid_utf8 kind attempt diagnostic)

  -- the failure, and none where the second result is false
  unfoldable pub map_item_failure : Outcome → ℕ → Option Failure
  map_item_failure o attempt =
      let summary = runner_failure_summary o "runner-failure" in
      if ltb 0 o.timed_out_after
      then kept FailureKind.timeout attempt summary
      else (if (o.exit_code =ℤ exit_descriptor_resolution)
            || (o.exit_code =ℤ exit_schema_validation)
            || (o.exit_code =ℤ exit_infrastructure)
            || (o.exit_code =ℤ exit_fatal_run)
          then none
          else (if o.exit_code =ℤ exit_non_retryable
              then kept FailureKind.non_retryable attempt
                  (with_runner_message summary o.runner_message)
              else (if o.exit_code =ℤ exit_step_execution
                  then kept FailureKind.error attempt (with_runner_message summary o.runner_message)
                  else (if is_negative o.exit_code
                      then kept FailureKind.killed attempt summary
                      else kept FailureKind.error attempt summary))))
