-- ===== src/Journal/Tests.antt =====
-- A run that is stopped while a map step runs.
use massive.Base.{◌≡◌, refl, inl, none, some, [], ◌∷◌, first_error, arith, false, true}
use massive.Journal.Data.{
  ArtifactRef, PublishedArtifact, MapItem, Step, Manifest, running, failed, pending, succeeded,
}
use massive.Journal.Read.{
  check_manifest, check_failure, check_hook, check_step, validate_attempts, check_items,
  check_dense, last_status, check_last, check_items_from, check_item,
}
use massive.Journal.Marks.{find_step, new_step, new_attempt, no_artifact}
use massive.Journal.Terminate.{terminate}
use massive.Journal.TerminatedEntries.{StepIsShaped}
use massive.Journal.MapMarks.{fail_map_node}
use massive.Journal.MapFailed.{check_manifest-fail_map_node}
use massive.Journal.Terminated.{check_manifest-terminate}

abbrev stored : ArtifactRef
stored = record { key = "k"; hash = "h"; size = 1; content_type = "application/json" }

abbrev published : PublishedArtifact
published = record { manifest = stored; body = stored; schema = "s" }

abbrev done_item : MapItem
done_item = record {
  index = 0;
  status = succeeded;
  attempts =
      record (new_attempt 1 no_artifact) { status = succeeded; output = some published } ∷ [];
  diagnostic = "";
}

abbrev running_item : MapItem
running_item = record {
  index = 1;
  status = running;
  attempts =
      record (new_attempt 1 no_artifact) { status = failed; diagnostic = "exit 1" }
      ∷ new_attempt 2 no_artifact
      ∷ [];
  diagnostic = "";
}

abbrev pending_item : MapItem
pending_item = record { index = 2; status = pending; attempts = []; diagnostic = "" }

abbrev map_step : Step
map_step = record (new_step "m" true "collect") {
  status = running;
  attempts = new_attempt 1 no_artifact ∷ [];
  items = some (done_item ∷ running_item ∷ pending_item ∷ []);
}

abbrev live : Manifest
live = record {
  kind = "RunManifest";
  schema_version = 6;
  encoding = "json-v6";
  plan_hash = "p";
  project_key = "p";
  run_id = "r";
  status = running;
  diagnostic = "";
  failure = none;
  environment = none;
  steps = map_step ∷ new_step "b" false "" ∷ [];
  decisions = [];
  result = none;
  exit_hook = none;
}

live-accepted : check_manifest live ≡ none
unfolding check_manifest check_failure check_hook first_error check_step validate_attempts
    check_items check_dense last_status check_last check_items_from check_item
live-accepted = refl

map_step-IsShaped : StepIsShaped map_step
map_step-IsShaped = (
  λ h. absurd (ground arith),
  (λ h. absurd (ground arith), (λ h. absurd (ground arith), (λ h. refl, tt))),
)

check_manifest-terminate_example : check_manifest (terminate failed "stopped" live) ≡ none
check_manifest-terminate_example =
    check_manifest-terminate live failed "stopped" refl
      (
        (
          λ h. absurd (ground arith),
          (λ h. absurd (ground arith), (λ h. absurd (ground arith), (λ h. refl, tt))),
        ),
        ((λ h. refl, tt), tt),
      )
      (inl refl) live-accepted

map_found : find_step "m" live.steps ≡ some map_step
unfolding find_step
map_found = refl

check_manifest-fail_map_node_example :
    check_manifest (fail_map_node false "m" "one or more map items failed" live) ≡ none
check_manifest-fail_map_node_example =
    check_manifest-fail_map_node false "m" "one or more map items failed" live map_step (refl, refl)
      map_found refl map_step-IsShaped live-accepted
