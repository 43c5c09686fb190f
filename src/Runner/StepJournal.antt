-- ===== src/Runner/StepJournal.antt =====
-- internal/orchestrator/orchestrator.go, the attempt loop of `Run`: the whole loop and the journal.
use massive.Base.{ℕ, zero, suc, ◌+◌, ◌≤◌, ◌<◌, max, String, ◌≡◌, refl, ◌∙◌, ap, [], arith, length}
use mathlib.Core.Path.{subst}
use massive.Journal.Data.{Attempt, DataArtifact, PublishedArtifact, Step, Manifest, running}
use massive.Journal.Data
use massive.Journal.Steps.{Holds}
use massive.Runner.StepLoop.{
  Task, Loop, Flow, go, stop, panic, Round, again, finished, Ended, settled, failed, panicked,
  out_of_fuel, one_attempt, run_attempts, run_step,
}
use massive.Runner.StepInvariant.{Safe, Waiting}
use massive.Runner.StepMoves.{RoundPost}
use massive.Runner.StepRound.{one_attempt-post}

-- What the loop leaves: it has ended, without a panic.
abbrev pub EndedPost : Task → Ended → Type 0
EndedPost task (settled output s) =
    (safe : Safe task.id (max task.policy.max_attempts 1) s) × (safe.step.status ≡ Data.succeeded)
EndedPost task (failed e s) = Safe task.id (max task.policy.max_attempts 1) s
EndedPost task panicked = ⊥
EndedPost task out_of_fuel = ⊥

Safe-weaken :
    (id : String) (a b : ℕ) (s : Loop)
    → a ≤ b
    → (safe : Safe id a s) → (safe' : Safe id b s) × (safe'.step ≡ safe.step)
Safe-weaken id a b s h safe = (
  record {
    step = safe.step;
    holds = safe.holds;
    few = omega (arith, safe.few);
    written = safe.written;
  },
  refl,
)

-- One round, when what follows it is known.
round-post :
    (task : Task) (fuel count : ℕ) (x : Flow Round)
    → count < max task.policy.max_attempts 1
    → ((s : Loop)
        → Waiting task.id (suc count) s
        → suc count < task.policy.max_attempts
        → EndedPost task (run_attempts task fuel (count + 1 + 1) s))
    → RoundPost task count x
    → EndedPost task (elim x [
      | go (again s') ↦ run_attempts task fuel (count + 1 + 1) s'
      | go (finished output s') ↦ settled output s'
      | stop e s' ↦ failed e s'
      | panic ↦ panicked
    ])
round-post task fuel count (go (again s)) small later post = later s post.0 post.1
round-post task fuel count (go (finished output s)) small later post =
    let (safe, same) =
      Safe-weaken task.id (suc count) (max task.policy.max_attempts 1) s small post.0 in
    (safe, ap (λ (st : Step). st.status) same ∙ post.1)
round-post task fuel count (stop e s) small later post =
    (Safe-weaken task.id (suc count) (max task.policy.max_attempts 1) s small post).0
round-post task fuel count panic small later post = post

run_attempts-post :
    (task : Task) (fuel count : ℕ) (s : Loop)
    → Waiting task.id count s
    → count < max task.policy.max_attempts 1
    → task.policy.max_attempts < count + fuel
    → EndedPost task (run_attempts task fuel (count + 1) s)
unfolding run_attempts
run_attempts-post task zero count s w more enough = absurd (omega arith)
run_attempts-post task (suc fuel) count s w more enough =
    round-post task fuel count (one_attempt task (count + 1) s) more
      (λ s' w' more'.
        let next : suc count + 1 ≡ count + 1 + 1 = omega arith in
        subst (λ n. EndedPost task (run_attempts task fuel n s')) next
          (run_attempts-post task fuel (suc count) s' w' (omega arith) (omega arith)))
      (one_attempt-post task count s w)

-- Whatever the invoker, the store, the verification and the context answer, the attempt loop
-- ends without a panic after at most max(maxAttempts, 1) attempts, on a step without items that
-- has not started in the journal of a running run without a fatal cause that passes the checks
-- that Parse makes after its JSON schema. All journals that it wrote pass these checks, the
-- journal in memory too, and where the loop succeeds the step has succeeded.
pub run_step_journal :
    (task : Task) (s : Loop) (step : Step)
    → Holds task.id s.manifest step
    → step.attempts ≡ []
    → s.written ≡ []
    → EndedPost task (run_step task s)
unfolding run_step
run_step_journal task s step holds none_yet unwritten =
    let blank : Waiting task.id 0 s = record {
      step = step;
      holds = holds;
      dense = rw none_yet tt;
      size = ap length none_yet;
      written = rw unwritten tt;
    } in
    run_attempts-post task (suc task.policy.max_attempts) 0 s blank (omega arith) (omega arith)
