-- ===== src/Journal/Data.antt =====
-- internal/runjournal/manifest.go: the records of the run journal.
-- A pointer field is an Option. The status strings are the seven constants of
-- internal/orchestrator/types.go, which the journal's JSON schema enumerates.
use massive.Base.{ℕ, String, Option, List, Bool, ◌==◌, ◌≡◌, ◌↔◌, true, arith}

pub data Status : Type 0 where
  pending running succeeded failed cancelled skipped not_started : Status

abbrev pub code : Status → ℕ
code pending = 0
code running = 1
code succeeded = 2
code failed = 3
code cancelled = 4
code skipped = 5
code not_started = 6

-- `a == b` of two status strings
infix 50 ◌is◌
abbrev pub ◌is◌ : Status → Status → Bool
a is b = code a == code b

pub is_iff : (a b : Status) → ((a is b) ≡ true) ↔ (a ≡ b)
is_iff a b = (λ h. ground arith, λ h. ground arith)

pub record ArtifactRef : Type 0 where
  pub key : String
  pub hash : String
  pub size : ℕ
  pub content_type : String

pub record DataArtifact : Type 0 where
  pub key : String
  pub hash : String
  pub content_type : String
  pub schema : String

pub record PublishedArtifact : Type 0 where
  pub manifest : ArtifactRef
  pub body : ArtifactRef
  pub schema : String

pub record Attempt : Type 0 where
  pub attempt : ℕ
  pub status : Status
  pub input : DataArtifact
  pub output : Option PublishedArtifact
  pub diagnostic : String

pub record SkipReason : Type 0 where
  pub kind : String
  pub decision_id : String
  pub case : String

pub record Decision : Type 0 where
  pub node_id : String
  pub status : String
  pub selected_case : String
  pub diagnostic : String
  pub skip_reason : Option SkipReason

pub record MapItem : Type 0 where
  pub index : ℕ
  pub status : Status
  pub attempts : List Attempt
  pub diagnostic : String

pub record Step : Type 0 where
  pub node_id : String
  pub status : Status
  pub attempts : List Attempt
  pub items : Option (List MapItem)
  pub item_failures : String
  pub skip_reason : Option SkipReason

pub record FatalFailure : Type 0 where
  pub message : String
  pub type : String
  pub node_id : String

pub record Environment : Type 0 where
  pub requirement_hash : String
  pub realization_hash : String
  pub record_ref : ArtifactRef

pub record Manifest : Type 0 where
  pub kind : String
  pub schema_version : ℕ
  pub encoding : String
  pub plan_hash : String
  pub project_key : String
  pub run_id : String
  pub status : Status
  pub diagnostic : String
  pub failure : Option FatalFailure
  pub environment : Option Environment
  pub steps : List Step
  pub decisions : List Decision
  pub result : Option DataArtifact
  pub exit_hook : Option Step
