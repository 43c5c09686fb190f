-- ===== src/Journal/Attempts.antt =====
-- internal/runjournal/read.go, `validateAttempts`: failed attempts, numbered from 1, and one more.
use massive.Base.{
  ℕ, ◌+◌, ◌≡◌, refl, ap, none, some, List, [], ◌∷◌, ◌++◌, arith, ◌⊎◌, length, ⨾_passes,
}
use massive.Journal.Data.{Status, Attempt, Step, running, failed, cancelled}
use massive.Journal.Read.{
  check_dense, last_status, check_last, validate_attempts, check_items, check_step,
}
use massive.Journal.Marks.{update_last, drop_last}

-- Attempts after the first `index`: numbered on, and all failed.
abbrev pub FailedFrom : ℕ → List Attempt → Type 0
FailedFrom index [] = Unit
FailedFrom index (a ∷ rest) =
    (a.attempt ≡ index + 1) × (a.status ≡ failed) × FailedFrom (index + 1) rest

module _ {ℓ} {A : Type ℓ} where
  pub update_last-snoc :
      (f : A → A) (xs : List A) (x : A) → update_last f (xs ++ x ∷ []) ≡ xs ++ f x ∷ []
  unfolding update_last
  update_last-snoc f [] x = refl
  update_last-snoc f (y ∷ []) x = refl
  update_last-snoc f (y ∷ z ∷ xs) x = ap (λ t. y ∷ t) (update_last-snoc f (z ∷ xs) x)

  pub drop_last-snoc : (xs : List A) (x : A) → drop_last (xs ++ x ∷ []) ≡ xs
  unfolding drop_last
  drop_last-snoc [] x = refl
  drop_last-snoc (y ∷ []) x = refl
  drop_last-snoc (y ∷ z ∷ xs) x = ap (λ t. y ∷ t) (drop_last-snoc (z ∷ xs) x)

last_status-snoc : (xs : List Attempt) (a : Attempt) → last_status (xs ++ a ∷ []) ≡ some a.status
unfolding last_status
last_status-snoc [] a = refl
last_status-snoc (x ∷ []) a = refl
last_status-snoc (x ∷ y ∷ xs) a = last_status-snoc (y ∷ xs) a

check_dense-snoc :
    (i : ℕ) (xs : List Attempt) (a : Attempt)
    → FailedFrom i xs
    → a.attempt ≡ i + length xs + 1
    → check_dense i (xs ++ a ∷ []) ≡ none
unfolding check_dense
check_dense-snoc i [] a f e = ground arith
check_dense-snoc i (x ∷ xs) a f e = ground (arith, check_dense-snoc (i + 1) xs a f.2)

-- One more attempt after failed ones is accepted in an entry of its own status, and if it failed
-- also in an entry that is running or cancelled.
pub validate-snoc :
    (xs : List Attempt) (a : Attempt) (status : Status)
    → FailedFrom 0 xs
    → a.attempt ≡ length xs + 1
    → (a.status ≡ status) ⊎ (a.status ≡ failed) × ((status ≡ running) ⊎ (status ≡ cancelled))
    → validate_attempts (xs ++ a ∷ []) status ≡ none
unfolding validate_attempts check_last
validate-snoc xs a status f e h =
    (⨾_passes (check_dense 0 (xs ++ a ∷ [])) _).1
      (check_dense-snoc 0 xs a f (omega arith), rw (last_status-snoc xs a) (ground arith))

pub FailedFrom-snoc :
    (i : ℕ) (xs : List Attempt) (a : Attempt)
    → FailedFrom i xs
    → a.attempt ≡ i + length xs + 1
    → a.status ≡ failed
    → FailedFrom i (xs ++ a ∷ [])
FailedFrom-snoc i [] a f e s = (omega arith, s, tt)
FailedFrom-snoc i (x ∷ xs) a f e s = (f.0, f.1, FailedFrom-snoc (i + 1) xs a f.2 (omega arith) s)

check_dense-FailedFrom : (i : ℕ) (xs : List Attempt) → FailedFrom i xs → check_dense i xs ≡ none
unfolding check_dense
check_dense-FailedFrom i [] f = refl
check_dense-FailedFrom i (x ∷ xs) f = ground (arith, check_dense-FailedFrom (i + 1) xs f.2)

check_last-FailedFrom :
    (i : ℕ) (xs : List Attempt) → FailedFrom i xs → check_last (last_status xs) running ≡ none
unfolding check_last last_status
check_last-FailedFrom i [] f = refl
check_last-FailedFrom i (x ∷ []) f = ground arith
check_last-FailedFrom i (x ∷ y ∷ xs) f = check_last-FailedFrom (i + 1) (y ∷ xs) f.2

pub validate-nil : (status : Status) → validate_attempts [] status ≡ none
unfolding validate_attempts check_dense last_status check_last
validate-nil status = refl

-- A list of failed attempts is accepted in a running entry.
pub validate-FailedFrom :
    (xs : List Attempt) → FailedFrom 0 xs → validate_attempts xs running ≡ none
unfolding validate_attempts
validate-FailedFrom xs f =
    (⨾_passes (check_dense 0 xs) _).1 (check_dense-FailedFrom 0 xs f, check_last-FailedFrom 0 xs f)

-- Without items, a step is accepted in a running journal if its attempts are.
pub check_step-plain :
    (step : Step)
    → step.items ≡ none
    → validate_attempts step.attempts step.status ≡ none
    → check_step running step ≡ none
unfolding check_step check_items
check_step-plain step plain h = ground arith
