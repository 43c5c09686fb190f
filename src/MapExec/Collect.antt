-- ===== src/MapExec/Collect.antt =====
-- `Expand`, `Collect` and `CollectOutcomes`: one item per source position, results in source order.
-- JSON text is a list of bytes. Decoding and encoding stand behind `Canonical`, whose operations
-- are internal/canonical over Go's JSON packages.
pub use massive.Base.{Bytes, bytes_equal}
use massive.Base.{
  ℕ, zero, suc, ◌+◌, Option, none, some, List, [], ◌∷◌, Bool, true, false, not, ◌==◌, ◌≡◌, refl,
  ltb, if◌then◌else◌, ℤ, pos, negsuc, length, set, replicate,
}
use massive.MapExec.Failure.{Failure}

pub record Canonical : Type 0 where
  -- canonical.CanonicalizeJSON
  pub canonicalize : Bytes → Option Bytes
  -- json.Unmarshal into []json.RawMessage
  pub elements : Bytes → Option (List Bytes)
  -- canonical.Marshal of []json.RawMessage
  pub marshal : List Bytes → Option Bytes
  -- canonical.Marshal of {"status": "succeeded", "value": ...}
  pub marshal_value : Bytes → Option Bytes
  -- canonical.Marshal of {"failure": ..., "status": "failed"}
  pub marshal_failure : Failure → Option Bytes

pub record Item : Type 0 where
  pub index : ℕ
  pub body : Bytes

pub record Result : Type 0 where
  pub index : ℤ
  pub body : Bytes

pub data MapError : Type 0 where
  not_canonical not_array undecodable : MapError
  bad_item : ℕ → MapError
  wrong_count : MapError
  outside duplicated output_not_canonical : ℤ → MapError
  value_and_failure : ℤ → MapError
  unencodable : MapError

pub data Returns {ℓ} (A : Type ℓ) : Type ℓ where
  ok : A → Returns A
  err : MapError → Returns A

-- `x, err := ...; if err != nil { return e }`
abbrev pub or_error {ℓ} : {A : Type ℓ} → MapError → Option A → Returns A
or_error e (some a) = ok a
or_error e none = err e

module _ {ℓ κ} {A : Type ℓ} {B : Type κ} where
  infixl 5 ◌>>=◌
  abbrev pub ◌>>=◌ : Returns A → (A → Returns B) → Returns B
  err e >>= later = err e
  ok a >>= later = later a

  -- what ran, where a sequence was successful
  pub both_ok :
      {last : B} (first : Returns A) (later : A → Returns B)
      → ok last ≡ (first >>= later)
      → (a : A) × (first ≡ ok a) × (later a ≡ ok last)
  both_ok (err e) later h = cc
  both_ok (ok a) later h = (a, refl, cc)

pub or_error_ok {ℓ} :
    {A : Type ℓ} {found : A} (e : MapError) (o : Option A)
    → ok found ≡ or_error e o
    → o ≡ some found
or_error_ok e (some a) h = cc
or_error_ok e none h = cc

-- the state of the loop in Collect; a json.RawMessage that is not set is the empty list
pub record Slots : Type 0 where
  pub ordered : List Bytes
  pub seen : List Bool

-- `result.Index < 0 || result.Index >= expectedCount`, negated: the index that is in range
abbrev pub dense_index : ℕ → ℤ → Option ℕ
dense_index count (pos i) = if ltb i count then some i else none
dense_index count (negsuc i) = none

abbrev pub is_seen : List Bool → ℕ → Bool
is_seen [] i = false
is_seen (b ∷ bs) zero = b
is_seen (b ∷ bs) (suc i) = is_seen bs i

-- one of Outcome.Value and Outcome.Failure is nil
pub record Outcome : Type 0 where
  pub index : ℤ
  pub value : Option Bytes
  pub failure : Option Failure

-- a nil slice has no bytes
abbrev pub value_bytes : Option Bytes → Bytes
value_bytes none = []
value_bytes (some b) = b

module _ (c : Canonical) where
  open c use {canonicalize, elements, marshal, marshal_value, marshal_failure}

  -- `err == nil && bytes.Equal(canonicalBody, body)`
  abbrev pub same_bytes : Option Bytes → Bytes → Bool
  same_bytes none body = false
  same_bytes (some b) body = bytes_equal b body

  unfoldable pub is_canonical : Bytes → Bool
  is_canonical body = same_bytes (canonicalize body) body

  -- `len(body) == 0 || body[0] != '['`, negated
  unfoldable pub opens_array : Bytes → Bool
  opens_array [] = false
  opens_array (b ∷ rest) = b == b'['

  unfoldable pub expand_items : ℕ → List Bytes → Returns (List Item)
  expand_items index [] = ok []
  expand_items index (value ∷ rest) = do
    body ← or_error (bad_item index) (canonicalize value)
    items ← expand_items (index + 1) rest
    ok (record { index = index; body = body } ∷ items)

  unfoldable pub expand : Bytes → Returns (List Item)
  expand body =
      if not (is_canonical body)
      then err not_canonical
      else (if not (opens_array body)
          then err not_array
          else do values ← or_error undecodable (elements body); expand_items 0 values)

  -- the body of the loop in Collect, at an index in range
  unfoldable pub place : Result → Slots → ℕ → Returns Slots
  place result s i =
      if is_seen s.seen i
      then err (duplicated result.index)
      else (if not (is_canonical result.body)
          then err (output_not_canonical result.index)
          else ok (record { ordered = set s.ordered i result.body; seen = set s.seen i true }))

  unfoldable pub place_result : ℕ → Slots → Result → Returns Slots
  place_result count s result = do
    i ← or_error (outside result.index) (dense_index count result.index)
    place result s i

  unfoldable pub place_all : ℕ → Slots → List Result → Returns Slots
  place_all count s [] = ok s
  place_all count s (result ∷ rest) = do s' ← place_result count s result; place_all count s' rest

  unfoldable pub collect_count : ℕ → List Result → Returns Bytes
  collect_count count results = if not (length results == count) then err wrong_count else do
    slots ←
        place_all count (record { ordered = replicate count []; seen = replicate count false })
          results
    or_error unencodable (marshal slots.ordered)

  -- Collect; `expectedCount < 0` is refused
  unfoldable pub collect : ℤ → List Result → Returns Bytes
  collect (negsuc n) results = err wrong_count
  collect (pos count) results = collect_count count results

  -- the `switch` in CollectOutcomes
  unfoldable pub entry_body : Outcome → Option Failure → Option Bytes → Returns Bytes
  entry_body outcome none value =
      if not (is_canonical (value_bytes value))
      then err (output_not_canonical outcome.index)
      else or_error unencodable (marshal_value (value_bytes value))
  entry_body outcome (some failure) none = or_error unencodable (marshal_failure failure)
  entry_body outcome (some failure) (some value) = err (value_and_failure outcome.index)

  unfoldable pub entries : List Outcome → Returns (List Result)
  entries [] = ok []
  entries (outcome ∷ rest) = do
    body ← entry_body outcome outcome.failure outcome.value
    results ← entries rest
    ok (record { index = outcome.index; body = body } ∷ results)

  unfoldable pub collect_outcomes : ℤ → List Outcome → Returns Bytes
  collect_outcomes count outcomes = do results ← entries outcomes; collect count results
