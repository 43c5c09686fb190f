-- ===== src/Retry/Classify.antt =====
-- internal/orchestrator/retry.go: the retry rule and the collecting map on the same outcome.
use massive.Base.{
  ℕ, zero, suc, ◌≤◌, String, ◌≡◌, refl, ◌⊎◌, ◌↔◌, Option, none, some, Bool, true, false, arith, ◌<◌,
  pos,
}
use massive.MapExec.Failure.{
  Failure, FailureKind, new_failure, rune_count, take_runes, diagnostic_limit,
}
use massive.Retry.Outcome.{Outcome, failed, Formats, retryable_outcome, map_item_failure}

-- A failure that another attempt may fix.
pub is_collected : Option Failure → Bool
is_collected none = false
is_collected (some f) = true

-- Of the failed outcomes a collecting map keeps exactly the retryable ones, those of an author's
-- non-retryable exit, and those that were stopped at the deadline.
pub collected_iff :
    (fmt : Formats) (o : Outcome) (attempt : ℕ)
    → o.status ≡ failed
    → (is_collected (map_item_failure fmt o attempt) ≡ true)
      ↔ ((retryable_outcome o ≡ true) ⊎ ((o.exit_code ≡ pos 67) ⊎ (0 < o.timed_out_after)))
unfolding is_collected map_item_failure retryable_outcome
collected_iff fmt o attempt h = (λ k. ground arith, λ k. ground arith)

rune_count-take_runes : (n : ℕ) (s : String) → rune_count (take_runes n s) ≤ n
unfolding rune_count take_runes
rune_count-take_runes zero s = omega arith
rune_count-take_runes (suc n) String.[] = omega arith
rune_count-take_runes (suc n) (String.◌∷◌ c s) = omega (arith, rune_count-take_runes n s)

new_failure_bounds :
    (valid : String → String) (kind : FailureKind) (attempt : ℕ) (diagnostic : String)
    → ((new_failure valid kind attempt diagnostic).attempts ≡ attempt)
      × (rune_count (new_failure valid kind attempt diagnostic).diagnostic ≤ diagnostic_limit)
unfolding new_failure
new_failure_bounds valid kind attempt diagnostic =
    (refl, ground (arith, rune_count-take_runes diagnostic_limit (valid diagnostic)))

-- Every failure that a collecting map keeps records the attempt that failed, and its diagnostic
-- has at most 1024 code points.
pub kept_bounded :
    (fmt : Formats) (o : Outcome) (attempt : ℕ) {f : Failure}
    → map_item_failure fmt o attempt ≡ some f
    → (f.attempts ≡ attempt) × (rune_count f.diagnostic ≤ diagnostic_limit)
unfolding map_item_failure
kept_bounded fmt o attempt h =
    (grind (arith, new_failure_bounds), grind (arith, new_failure_bounds))
