-- ===== src/Params/CollectItems.antt =====
-- internal/valueparam/valueparam.go: CollectResults and CollectOutcomes over Argo's aggregate.
use massive.Base.{
  ℕ, ◌+◌, Bytes, codes, List, [], ◌∷◌, not, ◌||◌, ◌==◌, ltb, Option, none, some, pos, if◌then◌else◌,
  length, Dict, lookup,
}
use massive.Base.Results.{Result, good, bad, or_bad, Stateful, ◌>>=◌, give, throw, pure}
use massive.MapExec.Failure.{Failure}
use massive.MapExec.Collect.{is_canonical, collect, collect_outcomes}
use massive.MapExec.Collect
use massive.Store.Contract.{Datastore}
use massive.Params.Codec.{
  ParamError, contract, bad_attempts, no_evidence, bad_failure, wrong_index, item_outcome,
  bad_result, bad_inline, fatal_item, unencodable, item_inline_limit, parse_ref, resolve, encode,
}
use massive.Params.Merge.{wrap_at}
use massive.Params.Items.{same_set, from_map}
use massive.Params.Envelope.{
  Envelope, EnvelopeJson, Aggregate, is_set, is_lost, is_outcome, index_of, aggregate_envelopes,
}

module _ (c : EnvelopeJson) where
  open c use {json, read_failure, failure_text}

  -- the budget check at the end of ParseFailure
  abbrev pub within : ℕ → Option Failure → Option Failure
  within max_attempts none = none
  within max_attempts (some failure) =
      if ltb failure.attempts 1 || ltb max_attempts failure.attempts then none else some failure

  -- mapexec.ParseFailure
  unfoldable pub parse_failure : ℕ → Bytes → Option Failure
  parse_failure max_attempts body =
      if is_canonical json.canonical body then within max_attempts (read_failure body) else none

  abbrev pub short_inline : Option Bytes → Result ParamError Bytes
  short_inline none = bad (contract bad_inline)
  short_inline (some body) =
      if ltb item_inline_limit (length body) then bad (contract bad_inline) else good body

  module _ {S : Type 0} (store : Option (Datastore S)) where
    -- the body of an item, by its two forms
    abbrev pub body_of : ℕ → Option Bytes → Option Bytes → Stateful S ParamError Bytes
    body_of position (some inline) none = pure (short_inline (json.canonical.canonicalize inline))
    body_of position none (some text) = do
      ref ← pure (wrap_at position (parse_ref json item_inline_limit text))
      resolve json store ref
    body_of position none none = throw (contract bad_result)
    body_of position (some inline) (some text) = throw (contract bad_result)

    unfoldable pub inline_or_referenced :
        ℕ → Option Bytes → Option Bytes → Stateful S ParamError Bytes
    inline_or_referenced position inline referenced = body_of position inline referenced

    unfoldable pub item_value : ℕ → Option Bytes → Option Bytes → Stateful S ParamError Bytes
    item_value position inline referenced =
        if same_set inline referenced
        then throw (contract bad_result)
        else inline_or_referenced position inline referenced

    unfoldable pub result_of : ℕ → Envelope → Stateful S ParamError Collect.Result
    result_of position fields = if is_outcome fields then throw (contract item_outcome) else (do
      body ← item_value position fields.value fields.ref
      index ← pure (index_of fields)
      give (record { index = pos index; body = body }))

    unfoldable pub results_of : ℕ → List Envelope → Stateful S ParamError (List Collect.Result)
    results_of position [] = give []
    results_of position (fields ∷ rest) = do
      result ← result_of position fields
      results ← results_of (position + 1) rest
      give (result ∷ results)

    unfoldable pub collect_list : List Envelope → Stateful S ParamError Bytes
    collect_list envelopes = do
      results ← results_of 0 envelopes
      collected ← pure (from_map (collect json.canonical (pos (length results)) results))
      encode json store collected

    abbrev pub empty_array : Bytes
    empty_array = codes "[]"

    unfoldable pub collect_aggregate :
        (List Envelope → Stateful S ParamError Bytes) → Aggregate → Stateful S ParamError Bytes
    collect_aggregate collector a =
        if a.markers == 1 then give empty_array else collector a.envelopes

    unfoldable pub collect_results : Bytes → Stateful S ParamError Bytes
    collect_results aggregate = do
      a ← pure (aggregate_envelopes c aggregate)
      collect_aggregate collect_list a

    module _ (max_attempts : ℕ) (missing : Dict Failure) where
      -- a failure record that went through its JSON text
      abbrev pub validated : Option Bytes → Result ParamError Failure
      validated none = bad unencodable
      validated (some body) = or_bad (contract bad_failure) (parse_failure max_attempts body)

      abbrev pub evidence : Option Failure → Result ParamError Failure
      evidence none = bad (contract no_evidence)
      evidence (some failure) = validated (failure_text failure)

      abbrev pub failed_outcome : ℕ → Failure → Collect.Outcome
      failed_outcome position failure = record {
        index = pos position;
        value = none;
        failure = some failure;
      }

      abbrev pub value_outcome : ℕ → Bytes → Collect.Outcome
      value_outcome position body = record {
        index = pos position;
        value = some body;
        failure = none;
      }

      -- an envelope that carries an index
      unfoldable pub indexed_outcome : ℕ → Envelope → Stateful S ParamError Collect.Outcome
      indexed_outcome position fields =
          if is_set fields.failure || is_set fields.failure_ref
          then (do
            body ← inline_or_referenced position fields.failure fields.failure_ref
            failure ← pure (or_bad (contract bad_failure) (parse_failure max_attempts body))
            give (failed_outcome position failure))
          else (do
            body ← item_value position fields.value fields.ref
            give (value_outcome position body))

      abbrev pub at_own_index : ℕ → Envelope → ℕ → Stateful S ParamError Collect.Outcome
      at_own_index position fields index =
          if not (index == position)
          then throw (contract wrong_index)
          else indexed_outcome position fields

      unfoldable pub outcome_of : ℕ → Envelope → Stateful S ParamError Collect.Outcome
      outcome_of position fields =
          if fields.fatal
          then throw (fatal_item position)
          else if is_lost fields
          then (do
            failure ← pure (evidence (lookup fields.lost missing))
            give (failed_outcome position failure))
          else (do index ← pure (index_of fields); at_own_index position fields index)

      unfoldable pub outcomes_of : ℕ → List Envelope → Stateful S ParamError (List Collect.Outcome)
      outcomes_of position [] = give []
      outcomes_of position (fields ∷ rest) = do
        outcome ← outcome_of position fields
        outcomes ← outcomes_of (position + 1) rest
        give (outcome ∷ outcomes)

      unfoldable pub outcome_list : List Envelope → Stateful S ParamError Bytes
      outcome_list envelopes = do
        outcomes ← outcomes_of 0 envelopes
        collected ←
            pure (from_map (collect_outcomes json.canonical (pos (length outcomes)) outcomes))
        encode json store collected

      -- CollectOutcomes
      unfoldable pub collect_item_outcomes : Bytes → Stateful S ParamError Bytes
      collect_item_outcomes aggregate =
          if ltb max_attempts 1
          then throw (contract bad_attempts)
          else (do a ← pure (aggregate_envelopes c aggregate); collect_aggregate outcome_list a)
