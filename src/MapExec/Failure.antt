-- ===== src/MapExec/Failure.antt =====
-- internal/mapexec/values.go: `Failure` and `NewFailure`.
-- strings.ToValidUTF8 belongs to Go's library and is a parameter.
use massive.Base.{ℕ, zero, suc, String, ltb, if◌then◌else◌}

pub data FailureKind : Type 0 where
  error killed non_retryable timeout : FailureKind

-- DiagnosticLimit, in code points
abbrev pub diagnostic_limit : ℕ
diagnostic_limit = 1024

pub record Failure : Type 0 where
  pub attempts : ℕ
  pub diagnostic : String
  pub kind : FailureKind

-- `len([]rune(s))`
unfoldable pub rune_count : String → ℕ
rune_count String.[] = 0
rune_count (String.◌∷◌ c s) = suc (rune_count s)

-- `string(runes[:n])`
unfoldable pub take_runes : ℕ → String → String
take_runes zero s = ""
take_runes (suc n) String.[] = ""
take_runes (suc n) (String.◌∷◌ c s) = String.◌∷◌ c (take_runes n s)

module _ (to_valid_utf8 : String → String) where
  unfoldable pub new_failure : FailureKind → ℕ → String → Failure
  new_failure kind attempts diagnostic =
      let valid = to_valid_utf8 diagnostic in
      record {
        attempts = attempts;
        diagnostic =
            if ltb diagnostic_limit (rune_count valid)
            then take_runes diagnostic_limit valid
            else valid;
        kind = kind;
      }
