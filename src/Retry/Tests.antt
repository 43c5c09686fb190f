-- ===== src/Retry/Tests.antt =====
-- Delays of a contract, and failures of a killed runner.
use massive.Base.{
  ℕ, ◌+◌, ◌*◌, ◌^◌, ◌≤◌, min, ◌≡◌, refl, ◌⊎◌, ◌↔◌, ◌<◌, some, none, pos, true, arith,
}
use massive.MapExec.Failure.{Failure, rune_count, diagnostic_limit, new_failure}
use massive.MapExec.Failure
use massive.Retry.Policy.{RetryPolicy, delay_before, policy_for_contract}
use massive.Retry.Delays.{contract_delay}
use massive.Retry.Outcome.{
  Outcome, Formats, failed, retryable_outcome, map_item_failure, runner_failure_summary, exit_label,
  with_runner_message,
}
use massive.Retry.Classify.{is_collected, collected_iff, kept_bounded}

abbrev retry : RetryPolicy
retry = record { max_attempts = 5; delay_seconds = 10; backoff_factor = 3; max_delay_seconds = 100 }

contract_delay_example :
    delay_before (policy_for_contract (record { retry = some retry; timeout_seconds = 60 })) (3 + 2)
    ≡ min (10 * 3 ^ 3) 100 * 10 ^ 9
contract_delay_example = contract_delay retry 60 3 (record {
  attempts = (omega arith, omega arith);
  delay = omega arith;
  factor = (omega arith, omega arith);
  max_delay = omega arith;
})

abbrev formats : Formats
formats = record { decimal = λ z. "n"; duration = λ d. "1s"; to_valid_utf8 = λ s. s }

abbrev exited : ℕ → Outcome
exited code = record {
  duration = 1;
  node_id = "a";
  attempt = 1;
  scope = none;
  status = failed;
  exit_code = pos code;
  diagnostic = "boom";
  fatal = none;
  runner_message = "boom";
  timed_out_after = 0;
}

collected_iff_example :
    (is_collected (map_item_failure formats (exited 66) 1) ≡ true)
    ↔ ((retryable_outcome (exited 66) ≡ true) ⊎ ((pos 66 ≡ pos 67) ⊎ (0 < 0)))
collected_iff_example = collected_iff formats (exited 66) 1 refl

abbrev exit_failure : Failure
exit_failure =
    new_failure formats.to_valid_utf8 Failure.FailureKind.error 2
      "step-execution-failure (exit n): boom"

exit_failure-eq : map_item_failure formats (exited 66) 2 ≡ some exit_failure
unfolding map_item_failure runner_failure_summary exit_label with_runner_message
exit_failure-eq = refl

kept_bounded_example :
    (exit_failure.attempts ≡ 2) × (rune_count exit_failure.diagnostic ≤ diagnostic_limit)
kept_bounded_example = kept_bounded formats (exited 66) 2 exit_failure-eq
