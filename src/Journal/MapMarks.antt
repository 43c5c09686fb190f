-- ===== src/Journal/MapMarks.antt =====
-- internal/orchestrator/orchestrator.go: the functions that write the items of a map step, and the
-- journal that a run starts with. An item index is not negative here, as callers pass positions.
use massive.Base.{
  ℕ, String, Option, none, some, List, [], ◌∷◌, ◌++◌, Bool, true, false, not, ◌&&◌, ◌||◌, ◌=ₛ◌,
  if◌then◌else◌, map, get_elem?,
}
use Prim.Native.String.{◌++◌ as concat}
use massive.Journal.Data.{
  Status, Attempt, MapItem, Step, DataArtifact, PublishedArtifact, Manifest, ◌is◌, pending, running,
  succeeded, failed, cancelled, skipped, not_started,
}
use massive.Journal.Marks.{
  update_at, update_last, update_step, find_step, new_attempt, end_attempts, retry_attempts,
  succeed_attempts, mark_attempt_terminal, new_step,
}
use massive.MapExec.Collect.{Item}

-- a write to the items of a step, with no effect where they are nil
unfoldable pub with_items : (List MapItem → List MapItem) → Step → Step
with_items f step = elim step.items [
  | none ↦ step
  | some items ↦ record step { items = some (f items) }
]

abbrev pub pending_item : Item → MapItem
pending_item item = record { index = item.index; status = pending; attempts = []; diagnostic = "" }

unfoldable pub mark_map_items_pending : String → List Item → Manifest → Manifest
mark_map_items_pending id items m = record m {
  steps = update_step id (with_items (λ _. map pending_item items)) m.steps;
}

abbrev pub update_item : String → ℕ → (MapItem → MapItem) → Manifest → Manifest
update_item id index f m = record m {
  steps = update_step id (with_items (update_at index f)) m.steps;
}

unfoldable pub start_item : ℕ → DataArtifact → MapItem → MapItem
start_item attempt input item = record item {
  status = running;
  attempts = item.attempts ++ new_attempt attempt input ∷ [];
}

unfoldable pub mark_map_item_running : String → ℕ → ℕ → DataArtifact → Manifest → Manifest
mark_map_item_running id index attempt input = update_item id index (start_item attempt input)

unfoldable pub retry_item : String → MapItem → MapItem
retry_item diagnostic item = record item { attempts = retry_attempts diagnostic item.attempts }

unfoldable pub mark_map_item_retrying : String → ℕ → String → Manifest → Manifest
mark_map_item_retrying id index diagnostic = update_item id index (retry_item diagnostic)

unfoldable pub succeed_item : PublishedArtifact → MapItem → MapItem
succeed_item output item = record item {
  status = succeeded;
  attempts = succeed_attempts output item.attempts;
}

abbrev pub item_at : ℕ → Option Step → Option MapItem
item_at index none = none
item_at index (some step) = elim step.items [ none ↦ none | some items ↦ get_elem? items index ]

-- whether the write through `lastAttempt` would be through nil
abbrev pub item_never_tried : Option MapItem → Bool
item_never_tried none = false
item_never_tried (some item) = elim item.attempts [ [] ↦ true | a ∷ rest ↦ false ]

unfoldable pub mark_map_item_succeeded : String → ℕ → PublishedArtifact → Manifest → Option Manifest
mark_map_item_succeeded id index output m =
    if item_never_tried (item_at index (find_step id m.steps))
    then none
    else some (update_item id index (succeed_item output) m)

unfoldable pub end_item : Status → String → MapItem → MapItem
end_item status diagnostic item = record item {
  status = status;
  attempts = end_attempts status diagnostic item.attempts;
}

unfoldable pub mark_map_item_terminal : String → ℕ → Status → String → Manifest → Manifest
mark_map_item_terminal id index status diagnostic =
    update_item id index (end_item status diagnostic)

-- `isCollected` is the domain of the map of collected failures.
unfoldable pub holds_failed_item : (ℕ → Bool) → List MapItem → Bool
holds_failed_item is_collected [] = false
holds_failed_item is_collected (item ∷ rest) =
    not (item.status is succeeded) && not (is_collected item.index)
    || holds_failed_item is_collected rest

unfoldable pub map_has_failed_item : (ℕ → Bool) → String → List Step → Bool
map_has_failed_item is_collected id [] = false
map_has_failed_item is_collected id (step ∷ rest) =
    let later = map_has_failed_item is_collected id rest in
    if not (step.node_id =ₛ id) then later else elim step.items [
      | none ↦ later
      | some items ↦ holds_failed_item is_collected items || later
    ]

-- the status strings of the constants
unfoldable pub status_text : Status → String
status_text pending = "pending"
status_text running = "running"
status_text succeeded = "succeeded"
status_text failed = "failed"
status_text cancelled = "cancelled"
status_text skipped = "skipped"
status_text not_started = "not-started"

-- An item that waits for a retry already recorded its failed attempt.
unfoldable pub close_attempt : Status → Attempt → Attempt
close_attempt status a =
    if a.status is running
    then record a { status = status; diagnostic = "map item did not complete" }
    else a

unfoldable pub close_unfinished : Status → MapItem → MapItem
close_unfinished status item =
    if item.status is pending
    then record item {
      status = not_started;
      diagnostic =
          concat "map ended with status " (concat (status_text status) " before item dispatch");
    }
    else (if item.status is running
        then record item {
          status = status;
          attempts = update_last (close_attempt status) item.attempts;
        }
        else item)

unfoldable pub mark_unfinished_map_items_terminal : String → Status → Manifest → Manifest
mark_unfinished_map_items_terminal id status m = record m {
  steps = update_step id (with_items (map (close_unfinished status))) m.steps;
}

-- failMapNode; `is_stopped`: the context has ended, and the cause is its error
unfoldable pub fail_map_node : Bool → String → String → Manifest → Manifest
fail_map_node is_stopped id diagnostic m =
    let status = if is_stopped then cancelled else failed in
    mark_attempt_terminal id status diagnostic (mark_unfinished_map_items_terminal id status m)

unfoldable pub new_steps : (String → Bool × String) → List String → List Step
new_steps node_of [] = []
new_steps node_of (id ∷ rest) = new_step id (node_of id).0 (node_of id).1 ∷ new_steps node_of rest

-- `node_of` tells of a node whether it is a map, and its item failures.
unfoldable pub new_run_manifest :
    String → String → String → List String → (String → Bool × String) → Manifest
new_run_manifest plan_hash project_key run_id step_order node_of = record {
  kind = "RunManifest";
  schema_version = 6;
  encoding = "json-v6";
  plan_hash = plan_hash;
  project_key = project_key;
  run_id = run_id;
  status = running;
  diagnostic = "";
  failure = none;
  environment = none;
  steps = new_steps node_of step_order;
  decisions = [];
  result = none;
  exit_hook = none;
}
