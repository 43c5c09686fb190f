-- ===== src/Retry/Delays.antt =====
-- internal/orchestrator/retry.go, `delayBefore`, within the bounds of the workflow schema.
use native.Mathlib.Nat.{
  min-eq_left, min-eq_right, mul-le-mul, mul-le-mul_right, pow-zero, pow-succ', mul_assoc,
  one-le-pow,
}
use native.Mathlib.Decide.{dec_le}
use massive.Base.{
  ℕ, zero, suc, ◌+◌, ◌-◌, ◌*◌, ◌^◌, ◌≤◌, ◌<◌, min, ◌∙◌, ◌≡◌, ap, some, arith, ltb, Bool-cases, inl,
  inr, min64, mul64-eq, ltb64-eq,
}
use massive.Retry.Policy.{
  RetryPolicy, seconds_duration, retry_policy, policy_for_contract, ExecutionPolicy, backoff,
  delay_before,
}

min64-eq : (a b : ℕ) → a < 2 ^ 63 → b < 2 ^ 63 → min64 a b ≡ min a b
unfolding min64
min64-eq a b h k = rw (ltb64-eq b a k h) (ground arith)

le-mul_pow : (a f n : ℕ) → 0 < f → a ≤ a * f ^ n
le-mul_pow a f n h = let one = one-le-pow n f h in grind arith

lt_of_mul_lt : (m f b : ℕ) → 0 < f → m * f < b → m < b
lt_of_mul_lt m f b h k = grind arith

mul_pow_zero : (a f : ℕ) → a ≡ a * f ^ 0
mul_pow_zero a f = rw pow-zero (omega arith)

mul_pow_suc : (a f n : ℕ) → a * f * f ^ n ≡ a * f ^ suc n
mul_pow_suc a f n = rw (pow-succ', mul_assoc)

mul_lt_of_lt : (a m f b : ℕ) → a < m → m * f < b → a * f < b
mul_lt_of_lt a m f b h k = grind arith

-- The exact delay, while no product overflows.
pub backoff_lem :
    (rounds : ℕ) (p : ExecutionPolicy) (delay : ℕ)
    → 0 < p.backoff_factor
    → delay < 2 ^ 63
    → p.max_delay * p.backoff_factor < 2 ^ 63
    → min64 (backoff rounds p delay) p.max_delay
      ≡ min (delay * p.backoff_factor ^ rounds) p.max_delay
unfolding backoff
backoff_lem zero p delay f h k =
    rw (min64-eq delay p.max_delay h (lt_of_mul_lt _ _ _ f k))
      (ap (λ a. min a p.max_delay) (mul_pow_zero delay p.backoff_factor))
backoff_lem (suc rounds) p delay f h k =
    let small = lt_of_mul_lt _ _ _ f k in
    rw (ltb64-eq delay p.max_delay h small) (elim (Bool-cases (ltb delay p.max_delay)) [
      | inl below ↦
          let fits : delay * p.backoff_factor < 2 ^ 63 =
            mul_lt_of_lt delay p.max_delay p.backoff_factor _ (ground arith) k in
          rw
            (
              below,
              mul64-eq delay p.backoff_factor fits,
              backoff_lem rounds p (delay * p.backoff_factor) f fits k,
            )
            (rw mul_pow_suc)
      | inr above ↦
          rw (above, min64-eq delay p.max_delay h small)
            (ground (arith, le-mul_pow delay p.backoff_factor (suc rounds)))
    ])

-- The bounds that the workflow schema puts on a contract's retry.
pub record IsWithinSchema (r : RetryPolicy) : Type 0 where
  pub attempts : (1 ≤ r.max_attempts) × (r.max_attempts ≤ 100)
  pub delay : r.delay_seconds ≤ 86400
  pub factor : (1 ≤ r.backoff_factor) × (r.backoff_factor ≤ 10)
  pub max_delay : r.max_delay_seconds ≤ 86400

pub delay_before_lem :
    (p : ExecutionPolicy) (k : ℕ)
    → 0 < p.backoff_factor
    → p.delay < 2 ^ 63
    → p.max_delay * p.backoff_factor < 2 ^ 63
    → delay_before p (k + 2) ≡ min (p.delay * p.backoff_factor ^ k) p.max_delay
unfolding delay_before
delay_before_lem p k f h m =
    let rounds : k + 2 - 2 ≡ k = omega arith in rw rounds (backoff_lem k p p.delay f h m)

seconds_duration-eq : (s : ℕ) → s ≤ 86400 → seconds_duration s ≡ s * 10 ^ 9
unfolding seconds_duration
seconds_duration-eq s h = mul64-eq s (10 ^ 9) (omega arith)

min_mul : (a b c : ℕ) → min (a * c) (b * c) ≡ min a b * c
min_mul a b c = elim (dec_le a b) [
  | yes p ↦ rw (min-eq_left p, min-eq_left (mul-le-mul_right c p))
  | no p ↦ let q : b ≤ a = omega arith in rw (min-eq_right q, min-eq_right (mul-le-mul_right c q))
]

abbrev in_nanoseconds : RetryPolicy → ℕ → ExecutionPolicy
in_nanoseconds r timeout = record {
  max_attempts = r.max_attempts;
  delay = r.delay_seconds * 10 ^ 9;
  backoff_factor = r.backoff_factor;
  max_delay = r.max_delay_seconds * 10 ^ 9;
  timeout = timeout;
}

retry_policy-eq :
    (r : RetryPolicy) (timeout : ℕ)
    → IsWithinSchema r
    → retry_policy (some r) timeout ≡ in_nanoseconds r timeout
unfolding retry_policy
retry_policy-eq r timeout h = ground (
  arith,
  seconds_duration-eq r.delay_seconds h.delay,
  seconds_duration-eq r.max_delay_seconds h.max_delay,
)

scaled_delay : (a m f k : ℕ) → min (a * 10 ^ 9 * f ^ k) (m * 10 ^ 9) ≡ min (a * f ^ k) m * 10 ^ 9
scaled_delay a m f k =
    let e : a * 10 ^ 9 * f ^ k ≡ a * f ^ k * 10 ^ 9 = omega arith in rw (e, min_mul)

no_overflow : (m f : ℕ) → m ≤ 86400 → f ≤ 10 → m * 10 ^ 9 * f < 2 ^ 63
no_overflow m f h k = let le : m * f ≤ 86400 * 10 = mul-le-mul h k in omega arith

-- Under a contract whose retry is within the schema's bounds, the wait before attempt k + 2 is
-- min(delaySeconds * backoffFactor ^ k, maxDelaySeconds) seconds.
pub contract_delay :
    (r : RetryPolicy) (timeout k : ℕ)
    → IsWithinSchema r
    → delay_before
        (policy_for_contract (record { retry = some r; timeout_seconds = timeout }))
        (k + 2)
      ≡ min (r.delay_seconds * r.backoff_factor ^ k) r.max_delay_seconds * 10 ^ 9
unfolding policy_for_contract
contract_delay r timeout k h =
    let t = seconds_duration timeout in
    let p = in_nanoseconds r t in
    rw (retry_policy-eq r t h) (
      delay_before_lem p k h.factor.0 (omega arith)
        (no_overflow r.max_delay_seconds r.backoff_factor h.max_delay h.factor.1)
      ∙ scaled_delay r.delay_seconds r.max_delay_seconds r.backoff_factor k)
