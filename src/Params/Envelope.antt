-- ===== src/Params/Envelope.antt =====
-- internal/valueparam/valueparam.go: the envelopes of map items, and what Argo aggregates of them.
use massive.Base.{
  ℕ, suc, ◌+◌, Bytes, List, [], ◌∷◌, Bool, true, false, not, ◌&&◌, ◌||◌, ◌==◌, ltb, Option, none,
  some, ℤ, pos, negsuc, is_negative, if◌then◌else◌, length, String, ◌=ₛ◌,
}
use massive.Base.Results.{Result, good, bad, or_bad}
use massive.MapExec.Failure.{Failure}
use massive.Params.Codec.{
  Ref, ParamError, contract, bad_envelope, mixed_markers, mixed_outcome, no_index, bad_aggregate,
  list_result, mixed_empty, panicked, Json,
}
use massive.Params.Merge.{wrap_at}

pub record Envelope : Type 0 where
  pub index : Option ℤ
  pub value : Option Bytes
  pub ref : Option Bytes
  pub list_ref : Option Bytes
  pub empty : Bool
  pub failure : Option Bytes
  pub failure_ref : Option Bytes
  pub fatal : Bool
  pub lost : String

pub record EnvelopeJson : Type 0 where
  pub json : Json
  -- a strict json.Decoder on an envelope
  pub read_envelope : Bytes → Option Envelope
  -- json.Unmarshal into a string
  pub read_string : Bytes → Option Bytes
  -- canonical.Marshal of [{"empty":true}]
  pub empty_list : Option Bytes
  -- canonical.Marshal of an index with a value, a listRef, a ref, a failure or a failureRef
  pub value_item : ℕ → Bytes → Option Bytes
  pub list_item : ℕ → Ref → Option Bytes
  pub ref_item : ℕ → Ref → Option Bytes
  pub failure_item : ℕ → Bytes → Option Bytes
  pub failure_ref_item : ℕ → Ref → Option Bytes
  -- canonical.Marshal of a Failure
  pub failure_text : Failure → Option Bytes
  -- a failure record that satisfies its schema, decoded
  pub read_failure : Bytes → Option Failure

abbrev pub is_set {ℓ} : {A : Type ℓ} → Option A → Bool
is_set none = false
is_set (some a) = true

abbrev pub is_lost : Envelope → Bool
is_lost fields = not (fields.lost =ₛ "")

-- envelope.outcome
unfoldable pub is_outcome : Envelope → Bool
is_outcome fields =
    is_set fields.failure || is_set fields.failure_ref || fields.fatal || is_lost fields

abbrev pub count_flag : Bool → ℕ
count_flag true = 1
count_flag false = 0

unfoldable pub has_content : Envelope → Bool
has_content fields =
    is_set fields.index
    || is_set fields.value
    || is_set fields.ref
    || is_set fields.list_ref
    || is_set fields.failure
    || is_set fields.failure_ref

abbrev pub no_dense_index : Option ℤ → Bool
no_dense_index none = true
no_dense_index (some i) = is_negative i

-- the checks of parseEnvelope on decoded fields
unfoldable pub check_envelope : Envelope → Result ParamError Envelope
check_envelope fields =
    if fields.empty || is_lost fields || fields.fatal
    then (if not
            (count_flag fields.empty + count_flag (is_lost fields) + count_flag fields.fatal == 1)
          || has_content fields
        then bad (contract mixed_markers)
        else good fields)
    else if (is_set fields.failure || is_set fields.failure_ref)
        && (is_set fields.value || is_set fields.ref || is_set fields.list_ref)
    then bad (contract mixed_outcome)
    else if no_dense_index fields.index
    then bad (contract no_index)
    else good fields

abbrev pub at_index : Option ℤ → Result ParamError ℕ
at_index none = bad panicked
at_index (some (pos n)) = good n
at_index (some (negsuc n)) = bad panicked

-- `*fields.Index`, which panics on nil; no index that was checked is negative
unfoldable pub index_of : Envelope → Result ParamError ℕ
index_of fields = at_index fields.index

-- the envelopes before the check for the marker of an empty map, and how many markers there are
pub record Aggregate : Type 0 where
  pub envelopes : List Envelope
  pub markers : ℕ

module _ (c : EnvelopeJson) where
  open c use {json, read_envelope, read_string}

  abbrev pub check_read : Option Envelope → Result ParamError Envelope
  check_read none = bad (contract bad_envelope)
  check_read (some fields) = check_envelope fields

  abbrev pub read_canonical : Option Bytes → Result ParamError Envelope
  read_canonical none = bad (contract bad_envelope)
  read_canonical (some body) = check_read (read_envelope body)

  unfoldable pub parse_envelope : Bytes → Result ParamError Envelope
  parse_envelope body = read_canonical (json.canonical.canonicalize body)

  -- an object, or the JSON string of one
  unfoldable pub unquote : Bytes → Result ParamError Bytes
  unquote [] = good []
  unquote (b ∷ rest) =
      if b == b'"'
      then or_bad (contract bad_aggregate) (read_string (b ∷ rest))
      else good (b ∷ rest)

  abbrev pub add_envelope : Envelope → Result ParamError Aggregate → Result ParamError Aggregate
  add_envelope fields (bad e) = bad e
  add_envelope fields (good a) =
      if fields.empty
      then good (record a { markers = suc a.markers })
      else good (record a { envelopes = fields ∷ a.envelopes })

  abbrev pub keep_envelope :
      Result ParamError Envelope → Result ParamError Aggregate → Result ParamError Aggregate
  keep_envelope (bad e) later = bad e
  keep_envelope (good fields) later =
      if not fields.empty && is_set fields.list_ref
      then bad (contract list_result)
      else add_envelope fields later

  abbrev pub parse_unquoted : ℕ → Result ParamError Bytes → Result ParamError Envelope
  parse_unquoted position (bad e) = bad e
  parse_unquoted position (good body) = wrap_at position (parse_envelope body)

  unfoldable pub read_all : ℕ → List Bytes → Result ParamError Aggregate
  read_all position [] = good (record { envelopes = []; markers = 0 })
  read_all position (value ∷ rest) =
      keep_envelope (parse_unquoted position (unquote value)) (read_all (position + 1) rest)

  -- `emptyMarkers > 0 && (emptyMarkers != 1 || len(values) != 1)`
  abbrev pub check_markers : List Bytes → Result ParamError Aggregate → Result ParamError Aggregate
  check_markers values (bad e) = bad e
  check_markers values (good a) =
      if ltb 0 a.markers && (not (a.markers == 1) || not (length values == 1))
      then bad (contract mixed_empty)
      else good a

  abbrev pub read_values : Option (List Bytes) → Result ParamError Aggregate
  read_values none = bad (contract bad_aggregate)
  read_values (some values) = check_markers values (read_all 0 values)

  -- an aggregate with one marker is that of an empty map
  unfoldable pub aggregate_envelopes : Bytes → Result ParamError Aggregate
  aggregate_envelopes aggregate = read_values (json.canonical.elements aggregate)

  abbrev pub lost_nodes : List Envelope → List String
  lost_nodes [] = []
  lost_nodes (fields ∷ rest) =
      if is_lost fields then fields.lost ∷ lost_nodes rest else lost_nodes rest

  abbrev pub has_fatal : List Envelope → Bool
  has_fatal [] = false
  has_fatal (fields ∷ rest) = fields.fatal || has_fatal rest

  -- a fatal envelope ends the search with no nodes
  abbrev pub nodes_of : Result ParamError Aggregate → Result ParamError (List String)
  nodes_of (bad e) = bad e
  nodes_of (good a) = good (if has_fatal a.envelopes then [] else lost_nodes a.envelopes)

  unfoldable pub missing_outcome_nodes : Bytes → Result ParamError (List String)
  missing_outcome_nodes aggregate = nodes_of (aggregate_envelopes aggregate)
