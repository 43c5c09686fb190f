-- ===== src/Params/Items.antt =====
-- internal/valueparam/valueparam.go: ExpandItems, DecodeItem and the envelopes of item results.
use massive.Base.{
  ℕ, ◌+◌, ◌*◌, ◌/◌, Bytes, List, [], ◌∷◌, Bool, true, false, ◌||◌, ltb, leb, Option, none, some, ℤ,
  pos, negsuc, if◌then◌else◌, length, get_elem?,
}
use massive.Base.Results.{Result, good, bad, or_bad, Stateful, ◌>>=◌, give, throw, pure}
use massive.MapExec.Failure.{Failure}
use massive.MapExec.Collect.{Item, Returns, ok, err, expand}
use massive.Store.Contract.{Datastore}
use massive.Params.Codec.{
  Ref, Value, ParamError, contract, bad_item, item_outside, too_many_items, map_failed, unencodable,
  negative_index, panicked, inline_limit, item_inline_limit, require_canonical, ref_for, parse_ref,
  resolve, publish, decode,
}
use massive.Params.Envelope.{Envelope, EnvelopeJson, is_set, is_outcome, index_of, parse_envelope}

abbrev pub max_map_items : ℕ
max_map_items = 96 * 1024 / (2 * (128 + 16))

abbrev pub same_set : Option Bytes → Option Bytes → Bool
same_set none none = true
same_set (some a) (some b) = true
same_set none (some b) = false
same_set (some a) none = false

abbrev pub from_map {ℓ} : {A : Type ℓ} → Returns A → Result ParamError A
from_map (ok a) = good a
from_map (err e) = bad (map_failed e)

module _ (c : EnvelopeJson) where
  open c use {json, value_item, list_item, ref_item, failure_item, failure_ref_item}

  abbrev pub item_envelope : Option Ref → Item → Option Bytes
  item_envelope none item = value_item item.index item.body
  item_envelope (some ref) item = list_item item.index ref

  abbrev pub cons_envelope : Bytes → Result ParamError (List Bytes) → Result ParamError (List Bytes)
  cons_envelope text (bad e) = bad e
  cons_envelope text (good rest) = good (text ∷ rest)

  abbrev pub then_envelopes :
      Option Bytes → Result ParamError (List Bytes) → Result ParamError (List Bytes)
  then_envelopes none rest = bad unencodable
  then_envelopes (some text) rest = cons_envelope text rest

  unfoldable pub item_envelopes : Option Ref → List Item → Result ParamError (List Bytes)
  item_envelopes ref [] = good []
  item_envelopes ref (item ∷ items) =
      then_envelopes (item_envelope ref item) (item_envelopes ref items)

  abbrev pub marshal_envelopes : Result ParamError (List Bytes) → Result ParamError Bytes
  marshal_envelopes (bad e) = bad e
  marshal_envelopes (good texts) = or_bad unencodable (json.canonical.marshal texts)

  abbrev pub checked_items : Value → List Item → Result ParamError Bytes
  checked_items input [] = or_bad unencodable c.empty_list
  checked_items input (item ∷ items) =
      if ltb max_map_items (length (item ∷ items))
      then bad (contract (too_many_items (length (item ∷ items))))
      else marshal_envelopes (item_envelopes input.ref (item ∷ items))

  abbrev pub expanded : Value → Result ParamError (List Item) → Result ParamError Bytes
  expanded input (bad e) = bad e
  expanded input (good items) = checked_items input items

  unfoldable pub expand_value : Value → Result ParamError Bytes
  expand_value input = expanded input (from_map (expand json.canonical input.body))

  abbrev pub with_index : Result ParamError ℕ → Option Bytes → Result ParamError Item
  with_index i none = bad (contract bad_item)
  with_index (bad e) (some body) = bad e
  with_index (good i) (some body) = good (record { index = i; body = body })

  -- a value carried inline
  unfoldable pub inline_item : Envelope → Bytes → Result ParamError Item
  inline_item fields text = with_index (index_of fields) (json.canonical.canonicalize text)

  abbrev pub pick : List Item → Result ParamError ℕ → Result ParamError Item
  pick items (bad e) = bad e
  pick items (good i) = or_bad (contract item_outside) (get_elem? items i)

  abbrev pub select_item : Envelope → Result ParamError (List Item) → Result ParamError Item
  select_item fields (bad e) = bad e
  select_item fields (good items) = pick items (index_of fields)

  module _ {S : Type 0} (store : Option (Datastore S)) where
    -- ExpandItems
    unfoldable pub expand_parameter : Bytes → Stateful S ParamError Bytes
    expand_parameter text = do input ← decode json store text; pure (expand_value input)

    unfoldable pub listed_item : Envelope → Bytes → Stateful S ParamError Item
    listed_item fields text = do
      ref ← pure (parse_ref json inline_limit text)
      list ← resolve json store ref
      pure (select_item fields (from_map (expand json.canonical list)))

    abbrev pub carried_item : Envelope → Option Bytes → Option Bytes → Stateful S ParamError Item
    carried_item fields (some text) list_ref = pure (inline_item fields text)
    carried_item fields none (some text) = listed_item fields text
    carried_item fields none none = throw panicked

    unfoldable pub item_of : Envelope → Stateful S ParamError (Option Item)
    item_of fields =
        if fields.empty
        then give none
        else if is_set fields.ref || is_outcome fields || same_set fields.value fields.list_ref
        then throw (contract bad_item)
        else (do item ← carried_item fields fields.value fields.list_ref; give (some item))

    -- DecodeItem; the marker of an empty map has no item
    unfoldable pub decode_item : Bytes → Stateful S ParamError (Option Item)
    decode_item body = do fields ← pure (parse_envelope c body); item_of fields

    abbrev pub encode_failure_at : ℕ → Option Bytes → Stateful S ParamError Bytes
    encode_failure_at index none = throw unencodable
    encode_failure_at index (some body) =
        if leb (length body) item_inline_limit
        then pure (or_bad unencodable (failure_item index body))
        else (do
          ref ← publish json store body
          pure (or_bad unencodable (failure_ref_item index ref)))

    unfoldable pub encode_item_failure : ℤ → Failure → Stateful S ParamError Bytes
    encode_item_failure (negsuc n) failure = throw negative_index
    encode_item_failure (pos index) failure = encode_failure_at index (c.failure_text failure)

  unfoldable pub result_envelope :
      ℕ → Bytes → Result ParamError (Unit {0}) → Result ParamError Bytes
  result_envelope index body (bad e) = bad e
  result_envelope index body (good _) = or_bad unencodable (
      if ltb item_inline_limit (length body)
      then ref_item index (ref_for json body)
      else value_item index body)

  unfoldable pub encode_published_item_result : ℤ → Bytes → Result ParamError Bytes
  encode_published_item_result (negsuc n) body = bad negative_index
  encode_published_item_result (pos index) body =
      result_envelope index body (require_canonical json body)
