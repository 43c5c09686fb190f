-- ===== src/Runner/StepMoves.antt =====
-- internal/orchestrator/orchestrator.go, the attempt loop of `Run`: what each journal write does to
-- the state of the loop.
use massive.Base.{
  false, ℕ, suc, ◌+◌, ◌<◌, String, ◌≡◌, ◌⊎◌, inl, inr, refl, sym, ◌∙◌, ap, Option, Option-cases,
  none, some, [], ◌∷◌, ◌++◌, arith, length,
}
use mathlib.Core.Path.{subst}
use massive.Journal.Data.{Attempt, DataArtifact, PublishedArtifact, Step, Manifest, running}
use massive.Journal.Data
use massive.Journal.Read.{validate_attempts}
use massive.Journal.Marks.{
  find_step, update_step, drop_last, start_attempt, retry_attempt, retry_attempts, succeed_attempt,
  succeed_attempts, end_attempt, end_attempts, mark_attempt_running, mark_attempt_retrying,
  mark_attempt_succeeded, mark_attempt_terminal, new_attempt,
}
use massive.Journal.Attempts.{
  FailedFrom, update_last-snoc, drop_last-snoc, validate-snoc, FailedFrom-snoc, check_step-plain,
}
use massive.Journal.Steps.{Holds-accepted, Holds-update}
use massive.Runner.StepLoop.{
  Task, StepError, Loop, Flow, go, stop, panic, Round, again, finished, check_error, drop_attempt,
  has_no_attempt, save, with_manifest,
}
use massive.Runner.StepInvariant.{
  Accepted-snoc, Safe, Waiting, Running, replaced, end_attempts-snoc, length-snoc, size_of,
  never_tried-snoc, dropped_valid,
}

-- What a round leaves, after `count` earlier attempts.
abbrev pub RoundPost : Task → ℕ → Flow Round → Type 0
RoundPost task count (go (again s)) =
    Waiting task.id (suc count) s × (suc count < task.policy.max_attempts)
RoundPost task count (go (finished output s)) =
    (safe : Safe task.id (suc count) s) × (safe.step.status ≡ Data.succeeded)
RoundPost task count (stop e s) = Safe task.id (suc count) s
RoundPost task count panic = ⊥

module _ (task : Task) (count : ℕ) where
  open task use {id, input}

  abbrev pub logged : Loop → Loop
  logged s = record s { written = s.written ++ s.manifest ∷ [] }

  pub save_cases :
      (s : Loop) → (save task s ≡ go (logged s)) ⊎ ((e : StepError) × (save task s ≡ stop e s))
  unfolding save
  save_cases s = elim (Option-cases (task.world.write (length s.written))) [
    | inl e ↦ inl (ground arith)
    | inr (e, h) ↦ inr (e, ground arith)
  ]

  pub check_error_cases :
      (o : Option StepError) (s : Loop)
      → (check_error o s ≡ go s) ⊎ ((e : StepError) × (check_error o s ≡ stop e s))
  unfolding check_error
  check_error_cases none s = inl refl
  check_error_cases (some e) s = inr (e, refl)

  pub Waiting-Safe : (s : Loop) → Waiting id (suc count) s → Safe id (suc count) s
  Waiting-Safe s w = record {
    step = w.step;
    holds = w.holds;
    few = omega (arith, w.size);
    written = w.written;
  }

  pub Waiting-logged : (s : Loop) → Waiting id (suc count) s → Waiting id (suc count) (logged s)
  Waiting-logged s w = record {
    step = w.step;
    holds = w.holds;
    dense = w.dense;
    size = w.size;
    written =
        Accepted-snoc s.written s.manifest w.written (Holds-accepted id s.manifest w.step w.holds);
  }

  pub Safe-logged : (s : Loop) → Safe id (suc count) s → Safe id (suc count) (logged s)
  Safe-logged s w = record {
    step = w.step;
    holds = w.holds;
    few = w.few;
    written =
        Accepted-snoc s.written s.manifest w.written (Holds-accepted id s.manifest w.step w.holds);
  }

  -- the entry ends as failed or cancelled
  pub ended :
      (s : Loop) (status : Data.Status) (diagnostic : String)
      → Running id input count s
      → Safe id
          (suc count)
          (with_manifest task s (mark_attempt_terminal id status diagnostic s.manifest))
  unfolding mark_attempt_terminal end_attempt
  ended s status diagnostic r =
      let a = record (new_attempt (count + 1) input) { status = status; diagnostic = diagnostic } in
      let e =
        ap (end_attempts status diagnostic) r.last
        ∙ end_attempts-snoc status diagnostic r.earlier _ in
      record {
        step = end_attempt status diagnostic r.step;
        holds =
            replaced id input count s (end_attempt status diagnostic) r a refl refl e refl
              (inl refl);
        few = size_of r.earlier a _ e r.size;
        written = r.written;
      }

  pub retried :
      (s : Loop) (diagnostic : String)
      → Running id input count s
      → Waiting id
          (suc count)
          (with_manifest task s (mark_attempt_retrying id diagnostic s.manifest))
  unfolding mark_attempt_retrying retry_attempt retry_attempts
  retried s diagnostic r =
      let a = record (new_attempt (count + 1) input) {
        status = Data.failed;
        diagnostic = diagnostic;
      } in
      let e = ap (retry_attempts diagnostic) r.last ∙ update_last-snoc _ r.earlier _ in
      record {
        step = retry_attempt diagnostic r.step;
        holds =
            replaced id input count s (retry_attempt diagnostic) r a refl refl e refl
              (inr (refl, inl r.live));
        dense =
            subst (FailedFrom 0) (sym e)
              (FailedFrom-snoc 0 r.earlier a r.dense (omega (arith, r.size)) refl);
        size = ap length e ∙ length-snoc r.earlier a ∙ ap suc r.size;
        written = r.written;
      }

  abbrev pub succeed : PublishedArtifact → Manifest → Manifest
  succeed output m = record m { steps = update_step id (succeed_attempt output) m.steps }

  pub succeeded :
      (s : Loop) (output : PublishedArtifact)
      → Running id input count s
      → Safe id (suc count) (with_manifest task s (succeed output s.manifest))
  unfolding succeed_attempt succeed_attempts
  succeeded s output r =
      let a = record (new_attempt (count + 1) input) {
        status = Data.succeeded;
        output = some output;
      } in
      let e = ap (succeed_attempts output) r.last ∙ update_last-snoc _ r.earlier _ in
      record {
        step = succeed_attempt output r.step;
        holds = replaced id input count s (succeed_attempt output) r a refl refl e refl (inl refl);
        few = size_of r.earlier a _ e r.size;
        written = r.written;
      }

  -- the entry has an attempt, so `lastAttempt` is not nil
  pub never_panics :
      (s : Loop) (output : PublishedArtifact)
      → Running id input count s
      → mark_attempt_succeeded id output s.manifest ≡ some (succeed output s.manifest)
  unfolding mark_attempt_succeeded
  never_panics s output r =
      rw (r.holds.found, never_tried-snoc r.step r.earlier (new_attempt (count + 1) input) r.last)

  pub has_attempt :
      (s : Loop) → Running id input count s → has_no_attempt (find_step id s.manifest.steps) ≡ false
  unfolding has_no_attempt
  has_attempt s r =
      rw (r.holds.found, never_tried-snoc r.step r.earlier (new_attempt (count + 1) input) r.last)

  -- without the attempt that was not dispatched
  pub dropped :
      (s : Loop)
      → Running id input count s
      → Safe id (suc count) (
          with_manifest task s
            (record s.manifest { steps = update_step id drop_attempt s.manifest.steps }))
  unfolding drop_attempt
  dropped s r =
      let e = ap drop_last r.last ∙ drop_last-snoc r.earlier _ in
      let f = drop_attempt r.step in
      let valid : validate_attempts f.attempts f.status ≡ none =
        dropped_valid (drop_last r.step.attempts) r.earlier r.step.status e r.dense r.live in
      record {
        step = f;
        holds =
            Holds-update id drop_attempt s.manifest r.step r.holds refl r.holds.plain
              (check_step-plain f r.holds.plain valid);
        few = omega (arith, ap length e, r.size);
        written = r.written;
      }

  pub started :
      (s : Loop)
      → Waiting id count s
      → Running id input count
          (with_manifest task s (mark_attempt_running id (count + 1) input s.manifest))
  unfolding mark_attempt_running start_attempt
  started s w =
      let a = new_attempt (count + 1) input in
      let f = start_attempt (count + 1) input w.step in
      let valid =
        validate-snoc w.step.attempts a running w.dense (ap (λ c. c + 1) (sym w.size)) (inl refl) in
      record {
        step = f;
        earlier = w.step.attempts;
        holds =
            Holds-update id (start_attempt (count + 1) input) s.manifest w.step w.holds refl
              w.holds.plain (check_step-plain f w.holds.plain valid);
        dense = w.dense;
        size = w.size;
        last = refl;
        live = refl;
        written = w.written;
      }

  pub Running-logged : (s : Loop) → Running id input count s → Running id input count (logged s)
  Running-logged s w = record {
    step = w.step;
    earlier = w.earlier;
    holds = w.holds;
    dense = w.dense;
    size = w.size;
    last = w.last;
    live = w.live;
    written =
        Accepted-snoc s.written s.manifest w.written (Holds-accepted id s.manifest w.step w.holds);
  }

  pub Running-Safe : (s : Loop) → Running id input count s → Safe id (suc count) s
  Running-Safe s w = record {
    step = w.step;
    holds = w.holds;
    few = size_of w.earlier _ w.step.attempts w.last w.size;
    written = w.written;
  }

  pub succeeded-logged :
      (s : Loop) (output : PublishedArtifact)
      → Running id input count s
      → (safe : Safe id (suc count) (logged (with_manifest task s (succeed output s.manifest))))
        × (safe.step.status ≡ Data.succeeded)
  unfolding succeeded Safe-logged succeed_attempt
  succeeded-logged s output r =
      (Safe-logged (with_manifest task s (succeed output s.manifest)) (succeeded s output r), refl)
