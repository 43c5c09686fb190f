-- ===== src/Retry/Policy.antt =====
-- The executor's view of a contract, and the delay before a retry. A time.Duration is an int64 of
-- nanoseconds, here its bit pattern below 2 ^ 64. Contract fields are uint32.
use massive.Base.{
  ℕ, zero, suc, ◌-◌, ◌^◌, max, Option, none, some, ltb, not, if◌then◌else◌, mul64, ltb64, min64,
}

-- planpb.RetryPolicy
pub record RetryPolicy : Type 0 where
  pub max_attempts : ℕ
  pub delay_seconds : ℕ
  pub backoff_factor : ℕ
  pub max_delay_seconds : ℕ

-- the fields of planpb.ExecutionContract that the executor reads
pub record ExecutionContract : Type 0 where
  pub retry : Option RetryPolicy
  pub timeout_seconds : ℕ

pub record ExecutionPolicy : Type 0 where
  pub max_attempts : ℕ
  pub delay : ℕ
  pub backoff_factor : ℕ
  pub max_delay : ℕ
  pub timeout : ℕ

-- time.Second
abbrev pub second : ℕ
second = 10 ^ 9

-- `time.Duration(seconds) * time.Second`
unfoldable pub seconds_duration : ℕ → ℕ
seconds_duration seconds = mul64 seconds second

unfoldable pub retry_policy : Option RetryPolicy → ℕ → ExecutionPolicy
retry_policy none timeout = record {
  max_attempts = 1;
  delay = 0;
  backoff_factor = 1;
  max_delay = 0;
  timeout = timeout;
}
retry_policy (some retry) timeout =
    if ltb 0 retry.max_attempts
    then record {
      max_attempts = retry.max_attempts;
      delay = seconds_duration retry.delay_seconds;
      backoff_factor = max retry.backoff_factor 1;
      max_delay = seconds_duration retry.max_delay_seconds;
      timeout = timeout;
    }
    else record {
      max_attempts = 1;
      delay = 0;
      backoff_factor = 1;
      max_delay = 0;
      timeout = timeout;
    }

unfoldable pub policy_for_contract : ExecutionContract → ExecutionPolicy
policy_for_contract contract =
    retry_policy contract.retry (seconds_duration contract.timeout_seconds)

-- the loop of delayBefore: `rounds` iterations are left
unfoldable pub backoff : ℕ → ExecutionPolicy → ℕ → ℕ
backoff zero policy delay = delay
backoff (suc rounds) policy delay =
    let next = backoff rounds policy (mul64 delay policy.backoff_factor) in
    if not (ltb64 delay policy.max_delay) then delay else next

unfoldable pub delay_before : ExecutionPolicy → ℕ → ℕ
delay_before policy attempt = min64 (backoff (attempt - 2) policy policy.delay) policy.max_delay
