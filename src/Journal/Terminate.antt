-- ===== src/Journal/Terminate.antt =====
-- internal/runjournal/manifest.go: `Terminate`, for a run that stops.
use massive.Base.{String, Option, none, some, List, map, if◌then◌else◌}
use massive.Journal.Data.{
  Status, Attempt, MapItem, Step, Manifest, ◌is◌, pending, running, not_started,
}

unfoldable pub terminate_attempt : Status → String → Attempt → Attempt
terminate_attempt status diagnostic a =
    if a.status is running then record a { status = status; diagnostic = diagnostic } else a

unfoldable pub terminate_running_attempts : Status → String → List Attempt → List Attempt
unfolding terminate_attempt
terminate_running_attempts status diagnostic attempts =
    map (terminate_attempt status diagnostic) attempts

unfoldable pub close_item : Status → Status → String → MapItem → MapItem
unfolding terminate_running_attempts
close_item pending status diagnostic item = record item {
  status = not_started;
  diagnostic = diagnostic;
}
close_item running status diagnostic item = record item {
  status = status;
  attempts = terminate_running_attempts status diagnostic item.attempts;
}
close_item _ status diagnostic item = item

unfoldable pub terminate_item : Status → String → MapItem → MapItem
terminate_item status diagnostic item = close_item item.status status diagnostic item

unfoldable pub close_step : Status → Status → String → Step → Step
unfolding terminate_running_attempts
close_step pending status diagnostic step = record step { status = not_started }
close_step running status diagnostic step = record step {
  status = status;
  attempts = terminate_running_attempts status diagnostic step.attempts;
}
close_step _ status diagnostic step = step

unfoldable pub terminate_items : Status → String → Option (List MapItem) → Option (List MapItem)
terminate_items status diagnostic none = none
terminate_items status diagnostic (some items) = some (map (terminate_item status diagnostic) items)

unfoldable pub terminate_step : Status → String → Step → Step
terminate_step status diagnostic step =
    let closed = close_step step.status status diagnostic step in
    record closed { items = terminate_items status diagnostic step.items }

unfoldable pub terminate : Status → String → Manifest → Manifest
terminate status diagnostic m = record m {
  status = status;
  diagnostic = diagnostic;
  result = none;
  steps = map (terminate_step status diagnostic) m.steps;
}
