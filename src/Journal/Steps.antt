-- ===== src/Journal/Steps.antt =====
-- internal/orchestrator/orchestrator.go: writes to one step of a journal, through `findManifestStep`.
use massive.Base.{String, ◌≡◌, refl, none, some, List, [], ◌∷◌, arith, first_error}
use massive.Journal.Data.{Status, Step, Manifest, running}
use massive.Journal.Read.{check_step, check_failure, check_hook, check_manifest}
use massive.Journal.Marks.{find_step, update_step}

module _ (id : String) (f : Step → Step) where
  pub find_step-update_step :
      (steps : List Step) (st : Step)
      → find_step id steps ≡ some st
      → (f st).node_id ≡ st.node_id
      → find_step id (update_step id f steps) ≡ some (f st)
  unfolding find_step update_step
  find_step-update_step [] st h n = absurd (ground arith)
  find_step-update_step (s ∷ rest) st h n = ground (arith, find_step-update_step rest st)

  pub check-update_step :
      (run : Status) (steps : List Step) (st : Step)
      → find_step id steps ≡ some st
      → first_error (check_step run) steps ≡ none
      → check_step run (f st) ≡ none
      → first_error (check_step run) (update_step id f steps) ≡ none
  unfolding find_step update_step first_error
  check-update_step run [] st h all k = refl
  check-update_step run (s ∷ rest) st h all k = ground (arith, check-update_step run rest st)

-- A running journal that passes the reader's checks after the JSON schema, where the entry of `id`
-- is `st`, a step without items.
pub record Holds (id : String) (m : Manifest) (st : Step) : Type 0 where
  pub live : m.status ≡ running
  pub cause : m.failure ≡ none
  pub found : find_step id m.steps ≡ some st
  pub plain : st.items ≡ none
  pub steps : first_error (check_step running) m.steps ≡ none
  pub hook : check_hook m.exit_hook ≡ none

pub Holds-accepted :
    (id : String) (m : Manifest) (st : Step) → Holds id m st → check_manifest m ≡ none
unfolding check_manifest check_failure
Holds-accepted id m st h = ground arith

pub Holds-update :
    (id : String) (f : Step → Step) (m : Manifest) (st : Step)
    → Holds id m st
    → (f st).node_id ≡ st.node_id
    → (f st).items ≡ none
    → check_step running (f st) ≡ none
    → Holds id (record m { steps = update_step id f m.steps }) (f st)
Holds-update id f m st h n plain k = record {
  live = h.live;
  cause = h.cause;
  found = find_step-update_step id f m.steps st h.found n;
  plain = plain;
  steps = check-update_step id f running m.steps st h.found h.steps k;
  hook = h.hook;
}
