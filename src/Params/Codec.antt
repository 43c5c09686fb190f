-- ===== src/Params/Codec.antt =====
-- Encode, Decode and DecodeMerge of internal/valueparam/valueparam.go, over the store's interface.
-- JSON text is read and written by `Json`: Go's JSON packages, internal/canonical and JSON schema.
use massive.Base.{
  ℕ, ◌+◌, Bytes, codes, bytes_equal, trim_prefix, [], ◌∷◌, true, ◌&&◌, ◌*◌, ltb, leb, ◌==◌, Option,
  none, some, if◌then◌else◌, length, take,
}
use massive.Base.Results.{Result, good, bad, Stateful, ◌>>=◌, give, pure}
use massive.MapExec.Collect.{Canonical, MapError, is_canonical}
use massive.Store.Keys.{KeyError, Parsed, key, invalid, blob_key_sha256_hex}
use massive.Store.Contract.{
  StoreError, invalid_key, not_found, access_denied, already_exists, failed, ObjectInfo, Opened,
  Datastore,
}

abbrev pub inline_limit : ℕ
inline_limit = 4096

abbrev pub item_inline_limit : ℕ
item_inline_limit = 100

abbrev pub max_value_bytes : ℕ
max_value_bytes = 256 * 1024 * 1024

abbrev pub json_type : Bytes
json_type = codes "application/json"

abbrev pub reference_prefix : ℕ
reference_prefix = b'@'

pub record Ref : Type 0 where
  pub hash : Bytes
  pub size : ℕ

pub record Value : Type 0 where
  pub body : Bytes
  pub ref : Option Ref

-- what wraps ErrContract
pub data Violation : Type 0 where
  entry_reference entry_not_json value_not_canonical : Violation
  inline_too_long value_too_long merge_too_long : ℕ → Violation
  wrong_object wrong_body : Violation
  reference_not_canonical invalid_reference : Violation
  small_reference : ℕ → Violation
  bad_envelope mixed_markers mixed_outcome no_index bad_item item_outside : Violation
  too_many_items : ℕ → Violation
  bad_aggregate mixed_empty list_result item_outcome bad_result bad_inline : Violation
  bad_attempts no_evidence bad_failure wrong_index : Violation

pub data ParamError : Type 0 where
  contract : Violation → ParamError
  storage : StoreError → ParamError
  bad_key : KeyError → ParamError
  no_store read_failed unencodable negative_index panicked : ParamError
  fatal_item : ℕ → ParamError
  map_failed : MapError → ParamError
  at_position : ℕ → ParamError → ParamError

pub record Json : Type 0 where
  pub canonical : Canonical
  -- canonical.DigestBytes
  pub digest : Bytes → Bytes
  -- canonical.Marshal of a Ref
  pub ref_text : Ref → Bytes
  -- a reference that satisfies value-reference.schema.json, decoded
  pub read_ref : Bytes → Option Ref

-- `len(parameter) > 0 && parameter[0] == referencePrefix`, with what follows
abbrev pub referenced : Bytes → Option Bytes
referenced [] = none
referenced (b ∷ rest) = if b == reference_prefix then some rest else none

module _ (j : Json) where
  open j use {canonical, digest, ref_text, read_ref}

  unfoldable pub ref_parameter : Ref → Bytes
  ref_parameter ref = reference_prefix ∷ ref_text ref

  abbrev pub forward : Bytes → Option Ref → Bytes
  forward body none = body
  forward body (some ref) = ref_parameter ref

  -- Value.Parameter
  unfoldable pub parameter : Value → Bytes
  parameter value = forward value.body value.ref

  abbrev pub entry_value : Option Bytes → Result ParamError Value
  entry_value none = bad (contract entry_not_json)
  entry_value (some body) = good (record { body = body; ref = none })

  abbrev pub normalize : Bytes → Option Bytes → Result ParamError Value
  normalize text none = entry_value (canonical.canonicalize text)
  normalize text (some rest) = bad (contract entry_reference)

  unfoldable pub decode_entry : Bytes → Result ParamError Value
  decode_entry text = normalize text (referenced text)

  unfoldable pub require_canonical : Bytes → Result ParamError (Unit {0})
  require_canonical body =
      if is_canonical canonical body then good tt else bad (contract value_not_canonical)

  unfoldable pub ref_for : Bytes → Ref
  ref_for body = record { hash = digest body; size = length body }

  unfoldable pub blob_key : Bytes → Parsed
  blob_key hash = blob_key_sha256_hex (trim_prefix (codes "sha256:") hash)

  -- a reference to a body above the limit
  unfoldable pub above : ℕ → Option Ref → Result ParamError Ref
  above limit none = bad (contract invalid_reference)
  above limit (some ref) =
      if leb ref.size limit then bad (contract (small_reference ref.size)) else good ref

  unfoldable pub parse_ref : ℕ → Bytes → Result ParamError Ref
  parse_ref limit body =
      if is_canonical canonical body
      then above limit (read_ref body)
      else bad (contract reference_not_canonical)

  -- the text of a canonical body whose upload, if any, was successful
  unfoldable pub spell : Bytes → Bytes
  spell body = if leb (length body) inline_limit then body else ref_parameter (ref_for body)

  abbrev pub spelled : Bytes → Result ParamError (Unit {0}) → Result ParamError Bytes
  spelled body (bad e) = bad e
  spelled body (good _) = good (spell body)

  unfoldable pub encode_published : Bytes → Result ParamError Bytes
  encode_published body = spelled body (require_canonical body)

  -- the checks on an open object
  unfoldable pub check_body : Ref → Bytes → Result ParamError Bytes
  check_body ref body =
      if length body == ref.size && bytes_equal (digest body) ref.hash
      then (if is_canonical canonical body then good body else bad (contract value_not_canonical))
      else bad (contract wrong_body)

  -- io.ReadAll of a reader limited to one byte more than the size
  unfoldable pub read_body : Ref → Option Bytes → Result ParamError Bytes
  read_body ref none = bad read_failed
  read_body ref (some stream) = check_body ref (take (ref.size + 1) stream)

  unfoldable pub check_object : Ref → Opened → Result ParamError Bytes
  check_object ref o =
      if bytes_equal o.info.content_type json_type && o.info.size == ref.size
      then read_body ref o.stream
      else bad (contract wrong_object)

  module _ {S : Type 0} (store : Option (Datastore S)) where
    abbrev pub Run : Type 0 → Type 0
    Run A = Stateful S ParamError A

    unfoldable pub answer_put : Ref → S × Result StoreError ObjectInfo → S × Result ParamError Ref
    answer_put ref (s, good info) = (s, good ref)
    answer_put ref (s, bad already_exists) = (s, good ref)
    answer_put ref (s, bad invalid_key) = (s, bad (storage invalid_key))
    answer_put ref (s, bad not_found) = (s, bad (storage not_found))
    answer_put ref (s, bad access_denied) = (s, bad (storage access_denied))
    answer_put ref (s, bad (failed e)) = (s, bad (storage (failed e)))

    unfoldable pub publish_at : Datastore S → Bytes → Parsed → Run Ref
    publish_at d body (invalid e) s = (s, bad (bad_key e))
    publish_at d body (key k) s =
        answer_put (ref_for body)
          (d.put k body (record { content_type = json_type; if_absent = true }) s)

    abbrev pub publish_to : Option (Datastore S) → Bytes → Run Ref
    publish_to none body s = (s, bad no_store)
    publish_to (some d) body s =
        if ltb max_value_bytes (length body)
        then (s, bad (contract (value_too_long (length body))))
        else publish_at d body (blob_key (digest body)) s

    unfoldable pub publish : Bytes → Run Ref
    publish body = publish_to store body

    abbrev pub answer_open : Ref → S × Result StoreError Opened → S × Result ParamError Bytes
    answer_open ref (s, bad e) = (s, bad (storage e))
    answer_open ref (s, good o) = (s, check_object ref o)

    unfoldable pub resolve_at : Datastore S → Ref → Parsed → Run Bytes
    resolve_at d ref (invalid e) s = (s, bad (bad_key e))
    resolve_at d ref (key k) s = answer_open ref (d.open_object k s)

    abbrev pub resolve_from : Option (Datastore S) → Ref → Run Bytes
    resolve_from none ref s = (s, bad no_store)
    resolve_from (some d) ref s = resolve_at d ref (blob_key ref.hash) s

    unfoldable pub resolve : Ref → Run Bytes
    resolve ref = resolve_from store ref

    -- a canonical body, inline or uploaded
    unfoldable pub encode_canonical : Bytes → Run Bytes
    encode_canonical body =
        if leb (length body) inline_limit
        then give body
        else (do ref ← publish body; give (ref_parameter ref))

    unfoldable pub encode : Bytes → Run Bytes
    encode body = do _ ← pure (require_canonical body); encode_canonical body

    unfoldable pub decode_reference : Bytes → Run Value
    decode_reference rest = do
      ref ← pure (parse_ref inline_limit rest)
      body ← resolve ref
      give (record { body = body; ref = some ref })

    unfoldable pub inline_value : Bytes → Result ParamError Value
    inline_value text =
        if ltb inline_limit (length text)
        then bad (contract (inline_too_long (length text)))
        else good (record { body = text; ref = none })

    abbrev pub decode_as : Bytes → Option Bytes → Run Value
    decode_as text (some rest) = decode_reference rest
    decode_as text none = do _ ← pure (require_canonical text); pure (inline_value text)

    unfoldable pub decode : Bytes → Run Value
    decode text = decode_as text (referenced text)
