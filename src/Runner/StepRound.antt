-- ===== src/Runner/StepRound.antt =====
-- internal/orchestrator/orchestrator.go, the attempt loop of `Run`: one round.
use massive.Base.{
  ℕ, suc, ◌+◌, inl, inr, Option, none, some, List, [], ◌∷◌, Bool-cases, ◌&&◌, ltb, arith,
}
use massive.Journal.Data.{Attempt, DataArtifact, PublishedArtifact, Step, Manifest, running}
use massive.Journal.Data
use massive.Journal.Marks.{mark_attempt_running, mark_attempt_retrying}
use massive.Retry.Outcome.{Outcome, is_succeeded, retryable_outcome}
use massive.Runner.StepLoop.{
  Task, StepError, Settlement, verified, unverified, Loop, Flow, Round, ◌>>=◌, check_error, is_nil,
  save, with_manifest, fail_outcome, end_status, end_diagnostic, record_success, settle_success,
  after_invoke, one_attempt,
}
use massive.Runner.StepInvariant.{Safe, Waiting, Running}
use massive.Runner.StepMoves.{
  RoundPost, logged, save_cases, Waiting-Safe, Waiting-logged, ended, retried, succeed, succeeded,
  never_panics, has_attempt, dropped, started, Running-logged, Running-Safe, succeeded-logged,
}

module _ (task : Task) (count : ℕ) where
  open task use {id, input}

  -- what to do after a save, whether it works or not
  after_save :
      (f : Loop → Flow Round) (s : Loop)
      → Safe id (suc count) s
      → RoundPost task count (f (logged task count s))
      → RoundPost task count (save task s >>= f)
  after_save f s safe post = elim (save_cases task count s) [
    | inl e ↦ rw e post
    | inr (x, e) ↦ rw e safe
  ]

  after_check :
      (f : Loop → Flow Round) (o : Option StepError) (s : Loop)
      → Safe id (suc count) s
      → RoundPost task count (f s)
      → RoundPost task count (check_error o s >>= f)
  unfolding check_error
  after_check f none s safe post = post
  after_check f (some e) s safe post = safe

  fail_outcome-post :
      (o : Outcome) (e : Option StepError) (s : Loop)
      → Running id input count s
      → RoundPost task count (fail_outcome task (count + 1) o e s)
  unfolding fail_outcome
  fail_outcome-post o e s r =
      elim (Bool-cases
        (is_nil e && ltb (count + 1) task.policy.max_attempts && retryable_outcome o)) [
          | inl more ↦
              let s' =
                with_manifest task s
                  (mark_attempt_retrying id (end_diagnostic task o) s.manifest) in
              let w = retried task count s (end_diagnostic task o) r in
              let w' = Waiting-logged task count s' w in
              rw more (
                after_save _ s' (Waiting-Safe task count s' w) (
                  after_check _ _ (logged task count s')
                    (Waiting-Safe task count (logged task count s') w') (w', ground arith)))
          | inr over ↦ rw over (ended task count s (end_status task o) (end_diagnostic task o) r)
        ]

  record_success-post :
      (output : PublishedArtifact) (e : Option StepError) (s : Loop)
      → Running id input count s
      → RoundPost task count (settle_success task (verified output) e s)
  unfolding settle_success record_success
  record_success-post output e s r =
      let s' = with_manifest task s (succeed task count output s.manifest) in
      let safe = succeeded task count s output r in
      let safe' = succeeded-logged task count s output r in
      rw (never_panics task count s output r)
        (after_save _ s' safe (after_check _ e (logged task count s') safe'.0 safe'))

  settle_success-post :
      (found : Settlement) (e : Option StepError) (s : Loop)
      → Running id input count s
      → RoundPost task count (settle_success task found e s)
  unfolding settle_success
  settle_success-post (unverified x) e s r =
      ended task count s Data.failed "output verification failed" r
  settle_success-post (verified output) e s r = record_success-post output e s r

  after_invoke-post :
      (outcomes : List Outcome) (e : Option StepError) (s : Loop)
      → Running id input count s
      → RoundPost task count (after_invoke task (count + 1) outcomes e s)
  unfolding after_invoke
  after_invoke-post [] (some e) s r = rw (has_attempt task count s r) (dropped task count s r)
  after_invoke-post [] none s r = Running-Safe task count s r
  after_invoke-post (o ∷ []) e s r = elim (Bool-cases (is_succeeded o.status)) [
    | inl yes_ ↦ rw yes_ (settle_success-post (task.world.settle (count + 1)) e s r)
    | inr no_ ↦ rw no_ (fail_outcome-post o e s r)
  ]
  after_invoke-post (o ∷ p ∷ rest) e s r = Running-Safe task count s r

  pub one_attempt-post :
      (s : Loop) → Waiting id count s → RoundPost task count (one_attempt task (count + 1) s)
  unfolding one_attempt
  one_attempt-post s w =
      let safe : Safe id (suc count) s = record {
        step = w.step;
        holds = w.holds;
        few = omega (arith, w.size);
        written = w.written;
      } in
      let s' = with_manifest task s (mark_attempt_running id (count + 1) input s.manifest) in
      let r = started task count s w in
      after_check _ (task.world.describe (count + 1)) s safe (
        after_save _ s' (Running-Safe task count s' r) (
          after_invoke-post (task.world.invoke (count + 1)).0 (task.world.invoke (count + 1)).1
            (logged task count s') (Running-logged task count s' r)))
