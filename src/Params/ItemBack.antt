-- ===== src/Params/ItemBack.antt =====
-- internal/valueparam/valueparam.go, DecodeItem: the envelope of an item, read back.
use mathlib.Core.Path.{subst}
use massive.Base.{◌≤◌, ℕ, Bytes, List, Option, none, some, get_elem?, ◌≡◌, refl, ap, ◌∙◌, arith}
use massive.Base.Results.{good, resume_good, resume-of_good}
use massive.MapExec.Collect.{Item, ok, expand}
use massive.Store.Contract.{Datastore}
use massive.Params.Codec.{
  Ref, Value, inline_limit, parse_ref, resolve, decode_reference, referenced, require_canonical,
  inline_value, decode_as, decode,
}
use massive.Params.Decoded.{parse_ref_good}
use massive.Params.RoundTrip.{IsJson}
use massive.Params.Envelope.{EnvelopeJson, is_outcome, index_of, check_envelope, parse_envelope}
use massive.Params.Items.{
  max_map_items, item_envelope, inline_item, listed_item, item_of, decode_item,
}
use massive.Params.ItemLaws.{value_fields, list_fields, IsEnvelopeJson, IsItemAt, expand-IsItemAt}

module _ (c : EnvelopeJson) (law : IsEnvelopeJson c) (j_law : IsJson c.json) {S : Type 0}
    (store : Option (Datastore S)) where
  -- what a decoded reference leaves behind: its text parses again, and it resolves to the body
  abbrev pub IsResolved : Ref → Bytes → S → Type 0
  IsResolved ref body s =
      (parse_ref c.json inline_limit (c.json.ref_text ref) ≡ good ref)
      × ((resolve c.json store ref s).1 ≡ good body)

  decode_reference-IsResolved :
      (rest : Bytes) (s : S) (v : Value) (ref : Ref)
      → (decode_reference c.json store rest s).1 ≡ good v
      → v.ref ≡ some ref
      → IsResolved ref v.body s
  unfolding decode_reference
  decode_reference-IsResolved rest s v ref h named =
      let (s', r, parsed, later) = resume_good (s, parse_ref c.json inline_limit rest) _ h in
      let text_ok = ap (λ x. x.1) parsed in
      let (fine, found, big) = parse_ref_good c.json inline_limit rest r text_ok in
      let (s'', body, resolved, end) = resume_good (resolve c.json store r s') _ later in
      let value : record { body = body; ref = some r } ≡ v = cc end in
      let same : some r ≡ some ref = ap (λ x. x.ref) value ∙ named in
      let same_ref : r ≡ ref = cc same in
      let same_text = j_law.ref_text-read rest r fine found in
      let start : s ≡ s' = ap (λ x. x.0) parsed in
      subst (λ x. IsResolved x v.body s) same_ref
        (
          ap (parse_ref c.json inline_limit) same_text ∙ text_ok,
          ap (λ x. (resolve c.json store r x).1) start
              ∙ ap (λ x. x.1) resolved
              ∙ ap (λ x. good x.body) value,
        )

  decode_as-IsResolved :
      (text : Bytes) (after : Option Bytes) (s : S) (v : Value) (ref : Ref)
      → (decode_as c.json store text after s).1 ≡ good v
      → v.ref ≡ some ref
      → IsResolved ref v.body s
  unfolding require_canonical inline_value
  decode_as-IsResolved text none s v ref h named = absurd (ground arith)
  decode_as-IsResolved text (some rest) s v ref h named =
      decode_reference-IsResolved rest s v ref h named

  pub decode-IsResolved :
      (text : Bytes) (s : S) (v : Value) (ref : Ref)
      → (decode c.json store text s).1 ≡ good v
      → v.ref ≡ some ref
      → IsResolved ref v.body s
  unfolding decode
  decode-IsResolved text s v ref h named =
      decode_as-IsResolved text (referenced text) s v ref h named

  read-value_fields :
      (i : ℕ) (body text : Bytes)
      → i ≤ max_map_items
      → c.json.canonical.canonicalize body ≡ some body
      → c.value_item i body ≡ some text
      → parse_envelope c text ≡ good (value_fields i body)
  unfolding parse_envelope check_envelope
  read-value_fields i body text low own h =
      let (canonical, fields) = law.value_read i body text low own h in
      rw canonical (rw fields refl)

  read-list_fields :
      (i : ℕ) (ref : Ref) (text : Bytes)
      → i ≤ max_map_items
      → c.json.read_ref (c.json.ref_text ref) ≡ some ref
      → c.list_item i ref ≡ some text
      → parse_envelope c text ≡ good (list_fields i (c.json.ref_text ref))
  unfolding parse_envelope check_envelope
  read-list_fields i ref text low own h =
      let (canonical, fields) = law.list_read i ref text low own h in rw canonical (rw fields refl)

  -- the text of a reference that was resolved decodes to it
  pub IsResolved-read :
      (ref : Ref) (body : Bytes) (s : S)
      → IsResolved ref body s
      → c.json.read_ref (c.json.ref_text ref) ≡ some ref
  IsResolved-read ref body s (parsed, _) =
      let (fine, read, big) = parse_ref_good c.json inline_limit (c.json.ref_text ref) ref parsed in
      read

  inline_item_back :
      (i : ℕ) (item : Item) (text : Bytes) (s : S)
      → item.index ≤ max_map_items
      → IsItemAt c i item
      → c.value_item item.index item.body ≡ some text
      → (decode_item c store text s).1 ≡ good (some item)
  unfolding decode_item item_of is_outcome inline_item index_of
  inline_item_back i item text s low (_, canonical) h =
      rw (read-value_fields item.index item.body text low canonical h) (rw canonical refl)

  listed_item_back :
      (i : ℕ) (items : List Item) (item : Item) (ref : Ref) (list : Bytes) (s : S)
      → IsItemAt c i item
      → get_elem? items i ≡ some item
      → expand c.json.canonical list ≡ ok items
      → IsResolved ref list s
      → (listed_item c store
          (list_fields item.index (c.json.ref_text ref))
          (c.json.ref_text ref)
          s).1
        ≡ good item
  unfolding listed_item index_of
  listed_item_back i items item ref list s (index, canonical) there all (parsed, resolved) =
      let found = ap (get_elem? items) index ∙ there in
      rw parsed
        (resume-of_good (resolve c.json store ref s) _ list resolved (rw all (rw found refl)))

  list_item_back :
      (i : ℕ) (items : List Item) (item : Item) (ref : Ref) (list text : Bytes) (s : S)
      → item.index ≤ max_map_items
      → IsItemAt c i item
      → get_elem? items i ≡ some item
      → expand c.json.canonical list ≡ ok items
      → IsResolved ref list s
      → c.list_item item.index ref ≡ some text
      → (decode_item c store text s).1 ≡ good (some item)
  unfolding decode_item item_of is_outcome
  list_item_back i items item ref list text s low at there all resolved h =
      rw (read-list_fields item.index ref text low (IsResolved-read ref list s resolved) h) (
        resume-of_good
          (listed_item c store (list_fields item.index (c.json.ref_text ref)) (c.json.ref_text ref)
            s)
          _ item (listed_item_back i items item ref list s at there all resolved) refl)

  pub item_back :
      (o : Option Ref) (i : ℕ) (items : List Item) (item : Item) (list text : Bytes) (s : S)
      → item.index ≤ max_map_items
      → ((ref : Ref) → o ≡ some ref → IsResolved ref list s)
      → expand c.json.canonical list ≡ ok items
      → get_elem? items i ≡ some item
      → item_envelope c o item ≡ some text
      → (decode_item c store text s).1 ≡ good (some item)
  item_back none i items item list text s low found all there h =
      inline_item_back i item text s low (expand-IsItemAt c law list items i item all there) h
  item_back (some ref) i items item list text s low found all there h =
      list_item_back i items item ref list text s low
        (expand-IsItemAt c law list items i item all there) there all (found ref refl) h
