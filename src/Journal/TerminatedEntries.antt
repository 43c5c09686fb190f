-- ===== src/Journal/TerminatedEntries.antt =====
-- internal/runjournal/manifest.go: the attempts and the map items of a journal that `Terminate` stops.
use massive.Base.{
  ℕ, ◌+◌, String, Option, none, some, List, [], ◌∷◌, ◌≡◌, ◌⊎◌, inl, inr, refl, arith, map, ap, All,
  ⨾_passes,
}
use massive.Journal.Data.{
  Status, Attempt, MapItem, Step, pending, running, succeeded, failed, cancelled, skipped,
  not_started,
}
use massive.Journal.Read.{
  check_dense, last_status, check_last, validate_attempts, check_item, check_items_from,
  check_items,
}
use massive.Journal.Terminate.{
  close_item, close_step, terminate_attempt, terminate_running_attempts, terminate_item,
  terminate_items, terminate_step,
}

abbrev pub IsStop : Status → Type 0
IsStop s = (s ≡ failed) ⊎ (s ≡ cancelled)

-- What the journal's JSON schema says of a pending entry: it has no attempts.
abbrev pub ItemIsShaped : MapItem → Type 0
ItemIsShaped item = item.status ≡ pending → item.attempts ≡ []

abbrev pub ItemsAreShaped : Option (List MapItem) → Type 0
ItemsAreShaped none = Unit
ItemsAreShaped (some items) = All ItemIsShaped items

abbrev pub StepIsShaped : Step → Type 0
StepIsShaped step = (step.status ≡ pending → step.attempts ≡ []) × ItemsAreShaped step.items

module _ (s : Status) (d : String) where
  pub check_dense-terminate :
      (i : ℕ) (tries : List Attempt)
      → check_dense i tries ≡ none
      → check_dense i (map (terminate_attempt s d) tries) ≡ none
  unfolding check_dense terminate_attempt
  check_dense-terminate i [] h = refl
  check_dense-terminate i (a ∷ []) h = ground arith
  check_dense-terminate i (a ∷ b ∷ rest) h =
      ground (arith, check_dense-terminate (i + 1) (b ∷ rest))

  pub check_last-terminate :
      (tries : List Attempt)
      → IsStop s
      → check_last (last_status tries) running ≡ none
      → check_last (last_status (map (terminate_attempt s d) tries)) s ≡ none
  unfolding check_last last_status terminate_attempt
  check_last-terminate [] stop h = refl
  check_last-terminate (a ∷ []) stop h = ground arith
  check_last-terminate (a ∷ b ∷ rest) stop h = check_last-terminate (b ∷ rest) stop h

  pub validate-terminate :
      (tries : List Attempt)
      → IsStop s
      → validate_attempts tries running ≡ none
      → validate_attempts (terminate_running_attempts s d tries) s ≡ none
  unfolding validate_attempts terminate_running_attempts
  validate-terminate tries stop h =
      let (dense, last) = (⨾_passes _ _).0 h in
      (⨾_passes _ _).1 (check_dense-terminate 0 tries dense, check_last-terminate tries stop last)

  pub validate-empty : validate_attempts [] not_started ≡ none
  unfolding validate_attempts check_dense last_status check_last
  validate-empty = refl

  -- An item of a running map.
  pub open_item :
      (step : Step) (i : ℕ) (item : MapItem)
      → IsStop s
      → (item.status ≡ pending → item.attempts ≡ [])
      → step.status ≡ running
      → check_item step i item ≡ none
      → check_item (terminate_step s d step) i (terminate_item s d item) ≡ none
  unfolding check_item terminate_step terminate_item close_item close_step
  open_item step i item stop shaped r h =
      ground (arith, validate-terminate item.attempts, validate-empty)

  -- An item of a map that has settled is left as it is.
  pub settled_item :
      (step : Step) (i : ℕ) (item : MapItem)
      → (step.status ≡ succeeded) ⊎ IsStop step.status
      → check_item step i item ≡ none
      → terminate_item s d item ≡ item
  unfolding check_item terminate_item close_item
  settled_item step i item settled h = ground arith

  pub open_items :
      (step : Step) (i : ℕ) (items : List MapItem)
      → IsStop s
      → All ItemIsShaped items
      → step.status ≡ running
      → check_items_from step i items ≡ none
      → check_items_from (terminate_step s d step) i (map (terminate_item s d) items) ≡ none
  unfolding check_items_from
  open_items step i [] stop shaped r h = refl
  open_items step i (item ∷ rest) stop shaped r h =
      let (here, later) = (⨾_passes _ _).0 h in
      (⨾_passes _ _).1 (
        open_item step i item stop shaped.0 r here,
        open_items step (i + 1) rest stop shaped.1 r later,
      )

  pub settled_items :
      (step : Step) (i : ℕ) (items : List MapItem)
      → (step.status ≡ succeeded) ⊎ IsStop step.status
      → check_items_from step i items ≡ none
      → map (terminate_item s d) items ≡ items
  unfolding check_items_from
  settled_items step i [] settled h = refl
  settled_items step i (item ∷ rest) settled h =
      let (here, later) = (⨾_passes (check_item step i item) _).0 h in
      cc (settled_item step i item settled here, settled_items step (i + 1) rest settled later)

  pub settled_maybe :
      (step : Step) (items : Option (List MapItem))
      → (step.status ≡ succeeded) ⊎ IsStop step.status
      → check_items step items ≡ none
      → terminate_items s d items ≡ items
  unfolding terminate_items check_items
  settled_maybe step none settled h = refl
  settled_maybe step (some items) settled h =
      ap some (settled_items step 0 items settled ((⨾_passes _ _).0 h).1)

  -- A step that has not run, or never will, has no items.
  pub idle_maybe :
      (step : Step) (items : Option (List MapItem))
      → (step.status ≡ pending) ⊎ ((step.status ≡ skipped) ⊎ (step.status ≡ not_started))
      → check_items step items ≡ none
      → (terminate_items s d items ≡ items) × ((items ≡ none) ⊎ (items ≡ some []))
  unfolding terminate_items check_items
  idle_maybe step none idle h = (refl, inl refl)
  idle_maybe step (some []) idle h = (refl, inr refl)
  idle_maybe step (some (item ∷ rest)) idle h = absurd (ground arith)
