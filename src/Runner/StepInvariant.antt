-- ===== src/Runner/StepInvariant.antt =====
-- internal/orchestrator/orchestrator.go, the attempt loop of `Run`: the states of the loop.
use massive.Base.{
  ℕ, suc, ◌+◌, ◌≤◌, String, ◌≡◌, ◌⊎◌, refl, sym, ◌∙◌, ap, none, some, List, [], ◌∷◌, ◌++◌, false,
  arith, length, All,
}
use massive.Journal.Data.{Attempt, DataArtifact, PublishedArtifact, Step, Manifest, running}
use massive.Journal.Data
use massive.Journal.Read.{check_manifest, validate_attempts}
use massive.Journal.Marks.{update_step, end_attempts, new_attempt, never_tried}
use massive.Journal.Attempts.{
  FailedFrom, update_last-snoc, validate-snoc, validate-nil, validate-FailedFrom, check_step-plain,
}
use massive.Journal.Steps.{Holds, Holds-update}
use massive.Runner.StepLoop.{Loop, dropped_status}

abbrev pub Accepted : List Manifest → Type 0
Accepted = All (λ m. check_manifest m ≡ none)

pub Accepted-snoc :
    (ms : List Manifest) (m : Manifest)
    → Accepted ms
    → check_manifest m ≡ none
    → Accepted (ms ++ m ∷ [])
Accepted-snoc [] m a h = (h, tt)
Accepted-snoc (x ∷ ms) m a h = (a.0, Accepted-snoc ms m a.1 h)

-- The journal in memory holds the step with at most `bound` attempts, and all journals that were
-- written pass the reader's checks after the JSON schema.
pub record Safe (id : String) (bound : ℕ) (s : Loop) : Type 0 where
  pub step : Step
  pub holds : Holds id s.manifest step
  pub few : length step.attempts ≤ bound
  pub written : Accepted s.written

-- Between two rounds: `count` attempts, all failed.
pub record Waiting (id : String) (count : ℕ) (s : Loop) : Type 0 where
  pub step : Step
  pub holds : Holds id s.manifest step
  pub dense : FailedFrom 0 step.attempts
  pub size : length step.attempts ≡ count
  pub written : Accepted s.written

-- Within a round: one more attempt is running.
pub record Running (id : String) (input : DataArtifact) (count : ℕ) (s : Loop) : Type 0 where
  pub step : Step
  pub earlier : List Attempt
  pub holds : Holds id s.manifest step
  pub dense : FailedFrom 0 earlier
  pub size : length earlier ≡ count
  pub last : step.attempts ≡ earlier ++ new_attempt (count + 1) input ∷ []
  pub live : step.status ≡ running
  pub written : Accepted s.written

module _ (id : String) (input : DataArtifact) (count : ℕ) (s : Loop) where
  -- The last attempt of the running entry is replaced by one that the reader's checks admit there.
  pub replaced :
      (f : Step → Step) (r : Running id input count s) (a : Attempt)
      → (f r.step).node_id ≡ r.step.node_id
      → (f r.step).items ≡ r.step.items
      → (f r.step).attempts ≡ r.earlier ++ a ∷ []
      → a.attempt ≡ count + 1
      → (a.status ≡ (f r.step).status)
        ⊎ (a.status ≡ Data.failed)
          × (((f r.step).status ≡ running) ⊎ ((f r.step).status ≡ Data.cancelled))
      → Holds id (record s.manifest { steps = update_step id f s.manifest.steps }) (f r.step)
  replaced f r a n items e k status =
      let plain = items ∙ r.holds.plain in
      let valid =
        validate-snoc r.earlier a (f r.step).status r.dense (k ∙ ap (λ c. c + 1) (sym r.size))
          status in
      Holds-update id f s.manifest r.step r.holds n plain
        (check_step-plain (f r.step) plain (rw e valid))

pub end_attempts-snoc :
    (status : Data.Status) (diagnostic : String) (xs : List Attempt) (a : Attempt)
    → end_attempts status diagnostic (xs ++ a ∷ [])
      ≡ xs ++ record a { status = status; diagnostic = diagnostic } ∷ []
unfolding end_attempts
end_attempts-snoc status diagnostic [] a = update_last-snoc _ [] a
end_attempts-snoc status diagnostic (x ∷ xs) a = update_last-snoc _ (x ∷ xs) a

pub length-snoc {ℓ} : {A : Type ℓ} (xs : List A) (x : A) → length (xs ++ x ∷ []) ≡ suc (length xs)
length-snoc [] x = refl
length-snoc (y ∷ xs) x = ap suc (length-snoc xs x)

pub size_of :
    (xs : List Attempt) (a : Attempt) (ys : List Attempt) {count : ℕ}
    → ys ≡ xs ++ a ∷ []
    → length xs ≡ count
    → length ys ≤ suc count
size_of xs a ys e n = omega (arith, ap length e, length-snoc xs a)

pub never_tried-snoc :
    (st : Step) (xs : List Attempt) (a : Attempt)
    → st.attempts ≡ xs ++ a ∷ []
    → never_tried (some st) ≡ false
never_tried-snoc st [] a e = rw e
never_tried-snoc st (x ∷ xs) a e = rw e

pub dropped_valid :
    (ys xs : List Attempt) (status : Data.Status)
    → ys ≡ xs
    → FailedFrom 0 xs
    → status ≡ running
    → validate_attempts ys (dropped_status ys status) ≡ none
dropped_valid ys [] status e f r = rw e (validate-nil Data.not_started)
dropped_valid ys (x ∷ xs) status e f r = rw (e, r) (validate-FailedFrom (x ∷ xs) f)
