-- ===== src/Journal/Read.antt =====
-- internal/runjournal/read.go: what `Parse` checks of a journal after its JSON schema.
-- JSON decoding and the schema validator are parameters of `parse`; the checks start from the
-- decoded record.
use massive.Base.{
  ℕ, ◌+◌, String, Option, none, some, List, [], ◌∷◌, Bool, true, false, not, ◌&&◌, ◌||◌, ◌==◌, ◌=ₛ◌,
  if◌then◌else◌, Bytes, fail_if, ◌⨾◌, first_error,
}
use massive.Base.Results.{Result, good, bad}
use massive.Journal.Data.{
  Status, Attempt, MapItem, Step, FatalFailure, Manifest, ◌is◌, pending, running, succeeded, failed,
  cancelled, skipped, not_started,
}

pub data AttemptError : Type 0 where
  not_dense : AttemptError
  retried_without_failing : ℕ → AttemptError
  last_differs : AttemptError

pub data JournalError : Type 0 where
  no_fatal_step : JournalError
  unfinished_step : String → JournalError
  unsuccessful_step : String → JournalError
  step_attempts : String → AttemptError → JournalError
  inactive_items : String → JournalError
  sparse_items : String → JournalError
  item_attempts : String → ℕ → AttemptError → JournalError
  not_started_items : String → JournalError
  unsuccessful_items : String → JournalError
  unfinished_items : String → JournalError
  hook_attempts : String → AttemptError → JournalError

-- `index < len(attempts)-1`, seen from the attempt at `index`
abbrev pub has_next {ℓ} : {A : Type ℓ} → List A → Bool
has_next [] = false
has_next (x ∷ xs) = true

-- the `for` loop of validateAttempts, from `index` on
unfoldable pub check_dense : ℕ → List Attempt → Option AttemptError
check_dense index [] = none
check_dense index (a ∷ rest) =
    fail_if (not (a.attempt == index + 1)) not_dense
    ⨾ fail_if (has_next rest && not (a.status is failed)) (retried_without_failing a.attempt)
    ⨾ check_dense (index + 1) rest

-- `attempts[len(attempts)-1].Status`
unfoldable pub last_status : List Attempt → Option Status
last_status [] = none
last_status (a ∷ []) = some a.status
last_status (a ∷ b ∷ rest) = last_status (b ∷ rest)

unfoldable pub check_last : Option Status → Status → Option AttemptError
check_last none status = none
check_last (some last) status =
    fail_if
      (not (last is status)
        && (not (last is failed) || not (status is running) && not (status is cancelled)))
      last_differs

unfoldable pub validate_attempts : List Attempt → Status → Option AttemptError
validate_attempts attempts status =
    check_dense 0 attempts ⨾ check_last (last_status attempts) status

-- `fmt.Errorf("... %w", err)`
abbrev pub wrap : (AttemptError → JournalError) → Option AttemptError → Option JournalError
wrap f none = none
wrap f (some e) = some (f e)

-- A step that can carry the fatal cause: failed, dispatched, and for a map with a failed
-- dispatched item.
unfoldable pub names_failed_item : List MapItem → Bool
names_failed_item [] = false
names_failed_item (item ∷ rest) =
    (item.status is failed) && has_next item.attempts || names_failed_item rest

unfoldable pub has_failed_item : Option (List MapItem) → Bool
unfolding names_failed_item
has_failed_item none = true
has_failed_item (some items) = names_failed_item items

unfoldable pub names_fatal : FatalFailure → List Step → Bool
names_fatal failure [] = false
names_fatal failure (step ∷ rest) =
    (step.node_id =ₛ failure.node_id)
      && (step.status is failed)
      && has_next step.attempts
      && has_failed_item step.items
    || names_fatal failure rest

unfoldable pub check_failure : Option FatalFailure → List Step → Option JournalError
check_failure none steps = none
check_failure (some failure) steps = fail_if (not (names_fatal failure steps)) no_fatal_step

unfoldable pub check_item : Step → ℕ → MapItem → Option JournalError
check_item step index item =
    fail_if (not (item.index == index)) (sparse_items step.node_id)
    ⨾ wrap (item_attempts step.node_id index) (validate_attempts item.attempts item.status)
    ⨾ fail_if
        ((item.status is not_started)
          && not (step.status is failed)
          && not (step.status is cancelled))
        (not_started_items step.node_id)
    ⨾ fail_if
        ((step.status is succeeded)
          && not (item.status is succeeded)
          && ((step.item_failures =ₛ "") || not (item.status is failed)))
        (unsuccessful_items step.node_id)
    ⨾ fail_if
        (((step.status is failed) || (step.status is cancelled))
          && ((item.status is pending) || (item.status is running)))
        (unfinished_items step.node_id)

unfoldable pub check_items_from : Step → ℕ → List MapItem → Option JournalError
check_items_from step index [] = none
check_items_from step index (item ∷ rest) =
    check_item step index item ⨾ check_items_from step (index + 1) rest

unfoldable pub check_items : Step → Option (List MapItem) → Option JournalError
check_items step none = none
check_items step (some items) =
    fail_if
      (((step.status is pending) || (step.status is skipped) || (step.status is not_started))
        && has_next items)
      (inactive_items step.node_id)
    ⨾ check_items_from step 0 items

unfoldable pub check_step : Status → Step → Option JournalError
check_step run step =
    fail_if (not (run is running) && ((step.status is pending) || (step.status is running)))
      (unfinished_step step.node_id)
    ⨾ fail_if ((run is succeeded) && not (step.status is succeeded) && not (step.status is skipped))
        (unsuccessful_step step.node_id)
    ⨾ wrap (step_attempts step.node_id) (validate_attempts step.attempts step.status)
    ⨾ check_items step step.items

unfoldable pub check_hook : Option Step → Option JournalError
check_hook none = none
check_hook (some hook) =
    wrap (hook_attempts hook.node_id) (validate_attempts hook.attempts hook.status)

-- The checks of `Parse` on the decoded manifest. The limits of the schema, such as the number of
-- attempts and texts that are not empty, are not among them.
unfoldable pub check_manifest : Manifest → Option JournalError
check_manifest m =
    check_failure m.failure m.steps
    ⨾ first_error (check_step m.status) m.steps
    ⨾ check_hook m.exit_hook

-- the JSON packages behind Parse
pub record JournalJson : Type 0 where
  -- jsonschema.UnmarshalJSON succeeds
  pub is_json : Bytes → Bool
  -- the compiled schema of the journal admits the value
  pub is_valid : Bytes → Bool
  -- json.Unmarshal into a Manifest
  pub unmarshal : Bytes → Option Manifest

pub data ParseError : Type 0 where
  not_json unsupported undecodable : ParseError
  inconsistent : JournalError → ParseError

abbrev pub checked : Manifest → Option JournalError → Result ParseError Manifest
checked m none = good m
checked m (some e) = bad (inconsistent e)

abbrev pub check_decoded : Option Manifest → Result ParseError Manifest
check_decoded none = bad undecodable
check_decoded (some m) = checked m (check_manifest m)

unfoldable pub parse : JournalJson → Bytes → Result ParseError Manifest
parse c text =
    if not (c.is_json text)
    then bad not_json
    else if not (c.is_valid text)
    then bad unsupported
    else check_decoded (c.unmarshal text)
