-- ===== src/Params/ItemLaws.antt =====
-- internal/valueparam/valueparam.go: the encoding of item envelopes, and the items of a list.
use mathlib.Core.Path.{subst}
use massive.Base.{
  ◌≤◌, ℕ, zero, suc, ◌+◌, Bytes, List, [], ◌∷◌, false, Option-cases, none, some, pos, get_elem?,
  ◌≡◌, inl, inr, sym, ap, ◌∙◌, arith,
}
use massive.MapExec.Collect.{
  Item, ok, bad_item, or_error, or_error_ok, both_ok, expand, expand_items,
}
use massive.Params.Codec.{Ref}
use massive.Params.Items.{max_map_items}
use massive.Params.Envelope.{Envelope, EnvelopeJson}

-- the envelope of an item with its value, and with the reference of its list
abbrev pub value_fields : ℕ → Bytes → Envelope
value_fields i body = record {
  index = some (pos i);
  value = some body;
  ref = none;
  list_ref = none;
  empty = false;
  failure = none;
  failure_ref = none;
  fatal = false;
  lost = "";
}

abbrev pub list_fields : ℕ → Bytes → Envelope
list_fields i text = record {
  index = some (pos i);
  value = none;
  ref = none;
  list_ref = some text;
  empty = false;
  failure = none;
  failure_ref = none;
  fatal = false;
  lost = "";
}

abbrev pub AllCanonical : EnvelopeJson → List Bytes → Type 0
AllCanonical c [] = Unit
AllCanonical c (text ∷ rest) =
    (c.json.canonical.canonicalize text ≡ some text) × AllCanonical c rest

-- What the program relies on: an envelope of a canonical body, or of a reference that the schema
-- admits, with the index of a map item is encoded as canonical JSON that decodes to its fields, a list of canonical texts as JSON with these elements,
-- and canonical JSON stays as it is.
pub record IsEnvelopeJson (c : EnvelopeJson) : Type 0 where
  pub value_read :
      (i : ℕ) (body text : Bytes)
      → i ≤ max_map_items
      → c.json.canonical.canonicalize body ≡ some body
      → c.value_item i body ≡ some text
      → (c.json.canonical.canonicalize text ≡ some text)
        × (c.read_envelope text ≡ some (value_fields i body))
  pub list_read :
      (i : ℕ) (ref : Ref) (text : Bytes)
      → i ≤ max_map_items
      → c.json.read_ref (c.json.ref_text ref) ≡ some ref
      → c.list_item i ref ≡ some text
      → (c.json.canonical.canonicalize text ≡ some text)
        × (c.read_envelope text ≡ some (list_fields i (c.json.ref_text ref)))
  pub elements_back :
      (texts : List Bytes) (text : Bytes)
      → AllCanonical c texts
      → c.json.canonical.marshal texts ≡ some text
      → c.json.canonical.elements text ≡ some texts
  pub canonical_again :
      (text body : Bytes)
      → c.json.canonical.canonicalize text ≡ some body
      → c.json.canonical.canonicalize body ≡ some body

-- an item with an index, and a canonical body
abbrev pub IsItemAt : EnvelopeJson → ℕ → Item → Type 0
IsItemAt c i item = (item.index ≡ i) × (c.json.canonical.canonicalize item.body ≡ some item.body)

cons-IsItemAt :
    (c : EnvelopeJson) (from : ℕ) (body : Bytes) (others : List Item) (i : ℕ) (item : Item)
    → c.json.canonical.canonicalize body ≡ some body
    → ((k : ℕ) → get_elem? others k ≡ some item → IsItemAt c (from + 1 + k) item)
    → get_elem? (record { index = from; body = body } ∷ others) i ≡ some item
    → IsItemAt c (from + i) item
cons-IsItemAt c from body others zero item fine later e =
    let same : record { index = from; body = body } ≡ item = ground arith in
    let start : from ≡ from + 0 = omega arith in
    subst (λ (x : Item). IsItemAt c (from + 0) x) same (start, fine)
cons-IsItemAt c from body others (suc i) item fine later e =
    let (index, canonical) = later i e in (omega arith, canonical)

-- The item at a position has that index.
expand_items-IsItemAt :
    (c : EnvelopeJson) (law : IsEnvelopeJson c) (from : ℕ) (values : List Bytes) (items : List Item)
    (i : ℕ) (item : Item)
    → expand_items c.json.canonical from values ≡ ok items
    → get_elem? items i ≡ some item
    → IsItemAt c (from + i) item
unfolding expand_items
expand_items-IsItemAt c law from [] items i item h e = absurd (
    let none_there : [] ≡ items = ground arith in
    let never = ap (λ l. get_elem? l i) none_there ∙ e in cc never)
expand_items-IsItemAt c law from (value ∷ rest) items i item h e =
    let (body, first, later) =
      both_ok (or_error (bad_item from) (c.json.canonical.canonicalize value)) _ (sym h) in
    let (others, tail, end) =
      both_ok (expand_items c.json.canonical (from + 1) rest) _ (sym later) in
    let fine = law.canonical_again value body (or_error_ok (bad_item from) _ (sym first)) in
    let whole : record { index = from; body = body } ∷ others ≡ items = ground arith in
    cons-IsItemAt c from body others i item fine
      (λ k there. expand_items-IsItemAt c law (from + 1) rest others k item tail there)
      (ap (λ l. get_elem? l i) whole ∙ e)

pub expand-IsItemAt :
    (c : EnvelopeJson) (law : IsEnvelopeJson c) (list : Bytes) (items : List Item) (i : ℕ)
    (item : Item)
    → expand c.json.canonical list ≡ ok items
    → get_elem? items i ≡ some item
    → IsItemAt c i item
unfolding expand
expand-IsItemAt c law list items i item h e = elim (Option-cases (c.json.canonical.elements list)) [
  | inl none_read ↦ absurd (ground arith)
  | inr (values, read) ↦
      let start : 0 + i ≡ i = omega arith in
      subst (λ x. IsItemAt c x item) start
        (expand_items-IsItemAt c law 0 values items i item (ground arith) e)
]
