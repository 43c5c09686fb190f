-- ===== src/Runner/Tests.antt =====
-- A step whose first attempt fails and whose second attempt succeeds.
use massive.Runner.MapOutcomes
use massive.Runner.MapOutcomes.{
  Indexed, map_outcomes_by_index, completed, match_outcomes, match_outcome, match_frames,
  match_item, frame_item, AreReported, entered, map_outcomes_by_index-AreReported,
}
use massive.Base.{
  false, ◌⊎◌, true, ◌≡◌, length, some, Bool, ℕ, suc, refl, pos, none, [], ◌∷◌, List, first_error,
}
use massive.Journal.Data.{ArtifactRef, PublishedArtifact, Manifest, running}
use massive.Journal.Read.{
  check_step, check_hook, validate_attempts, check_items, check_dense, last_status, check_last,
}
use massive.Journal.Marks.{new_step, no_artifact, find_step}
use massive.Journal.Steps.{Holds}
use massive.Retry.Policy.{ExecutionPolicy}
use massive.Retry.Outcome.{Outcome, Formats}
use massive.Retry.Outcome
use massive.Runner.StepLoop.{Task, World, verified, Loop, run_step}
use massive.Runner.StepJournal.{EndedPost, run_step_journal}

abbrev formats : Formats
formats = record { decimal = λ z. "n"; duration = λ d. "1s"; to_valid_utf8 = λ s. s }

abbrev policy : ExecutionPolicy
policy = record { max_attempts = 3; delay = 5; backoff_factor = 2; max_delay = 8; timeout = 0 }

abbrev outcome : Outcome.InvocationStatus → ℕ → Outcome.Outcome
outcome status code = record {
  duration = 1;
  node_id = "a";
  attempt = 1;
  scope = none;
  status = status;
  exit_code = pos code;
  diagnostic = "";
  fatal = none;
  runner_message = "";
  timed_out_after = 0;
}

abbrev body : ArtifactRef
body = record { key = "k"; hash = "h"; size = 1; content_type = "application/json" }

abbrev published : PublishedArtifact
published = record { manifest = body; body = body; schema = "s" }

abbrev replies : ℕ → List Outcome.Outcome
replies (suc (suc n)) = outcome Outcome.succeeded 0 ∷ []
replies n = outcome Outcome.failed 66 ∷ []

abbrev world : World
world = record {
  describe = λ n. none;
  write = λ n. none;
  invoke = λ n. (replies n, none);
  wait = λ n d. none;
  settle = λ n. verified published;
  stopped = λ n. none;
}

abbrev task : Task
task = record { fmt = formats; world = world; policy = policy; id = "a"; input = no_artifact }

abbrev fresh : Manifest
fresh = record {
  kind = "RunManifest";
  schema_version = 6;
  encoding = "json-v6";
  plan_hash = "p";
  project_key = "p";
  run_id = "r";
  status = running;
  diagnostic = "";
  failure = none;
  environment = none;
  steps = new_step "a" Bool.false "" ∷ [];
  decisions = [];
  result = none;
  exit_hook = none;
}

abbrev start : Loop
start = record { manifest = fresh; written = [] }

fresh-Holds : Holds "a" fresh (new_step "a" Bool.false "")
unfolding find_step first_error check_hook check_step validate_attempts check_items check_dense
    last_status check_last
fresh-Holds = record {
  live = refl;
  cause = refl;
  found = refl;
  plain = refl;
  steps = refl;
  hook = refl;
}

run_step_journal_example : EndedPost task (run_step task start)
run_step_journal_example =
    run_step_journal task start (new_step "a" Bool.false "") fresh-Holds refl refl

abbrev item_outcome : ℕ → Outcome.Outcome
item_outcome index = record (outcome Outcome.succeeded 0) {
  node_id = "m";
  scope = some (record { kind = "map-item"; map_id = "m"; index = pos index } ∷ []);
}

abbrev reported : Indexed
reported = (0, item_outcome 0) ∷ (2, item_outcome 2) ∷ []

items_matched :
    map_outcomes_by_index "m" 1 (0 ∷ 2 ∷ []) true (item_outcome 2 ∷ item_outcome 0 ∷ [])
    ≡ MapOutcomes.ok reported
unfolding map_outcomes_by_index completed match_outcomes match_outcome match_frames match_item
    frame_item
items_matched = refl

map_outcomes_by_index-AreReported_example :
    AreReported "m" 1 (0 ∷ 2 ∷ []) reported
    × (entered "m" 1 (0 ∷ 2 ∷ []) reported [] ≡ item_outcome 2 ∷ item_outcome 0 ∷ [])
    × ((true ≡ false) ⊎ (length reported ≡ 2))
map_outcomes_by_index-AreReported_example =
    map_outcomes_by_index-AreReported "m" 1 (0 ∷ 2 ∷ []) true (item_outcome 2 ∷ item_outcome 0 ∷ [])
      reported items_matched
