-- ===== src/Params/ItemRoundTrip.antt =====
-- internal/valueparam/valueparam.go: DecodeItem reads the items that ExpandItems writes.
use mathlib.Core.Path.{subst}
use massive.Base.{
  ℕ, suc, ◌+◌, ◌≤◌, Bytes, List, [], ◌∷◌, Bool-cases, ltb, Option, none, some, length, get_elem?,
  ◌≡◌, inl, inr, refl, sym, ap, ◌∙◌, arith,
}
use massive.Base.Results.{Result, good, bad, or_bad, resume_good}
use massive.MapExec.Collect.{Item, Returns, ok, err, expand}
use massive.Store.Contract.{Datastore}
use massive.Params.Codec.{Ref, Value, ParamError, decode}
use massive.Params.RoundTrip.{IsJson}
use massive.Params.Envelope.{EnvelopeJson}
use massive.Params.Items.{
  max_map_items, from_map, item_envelope, then_envelopes, item_envelopes, marshal_envelopes,
  checked_items, expanded, expand_value, expand_parameter, decode_item,
}
use massive.Params.ItemLaws.{AllCanonical, IsEnvelopeJson, IsItemAt, expand-IsItemAt}
use massive.Params.ItemBack.{IsResolved, IsResolved-read, decode-IsResolved, item_back}

module _ (c : EnvelopeJson) (law : IsEnvelopeJson c) (j_law : IsJson c.json) {S : Type 0}
    (store : Option (Datastore S)) where
  -- the items that texts decode to, one by one
  abbrev pub AllBack : S → List Item → List Bytes → Type 0
  AllBack s [] [] = Unit
  AllBack s (item ∷ items) (text ∷ texts) =
      ((decode_item c store text s).1 ≡ good (some item)) × AllBack s items texts
  AllBack s _ _ = ⊥

  envelope_canonical :
      (o : Option Ref) (i : ℕ) (item : Item) (text : Bytes)
      → item.index ≤ max_map_items
      → ((ref : Ref) → o ≡ some ref → c.json.read_ref (c.json.ref_text ref) ≡ some ref)
      → IsItemAt c i item
      → item_envelope c o item ≡ some text
      → c.json.canonical.canonicalize text ≡ some text
  envelope_canonical none i item text low readable (_, canonical) h =
      (law.value_read item.index item.body text low canonical h).0
  envelope_canonical (some ref) i item text low readable at h =
      (law.list_read item.index ref text low (readable ref refl) h).0

  then_envelopes_good :
      (o : Option Bytes) (r : Result ParamError (List Bytes)) (texts : List Bytes)
      → then_envelopes c o r ≡ good texts
      → (text : Bytes) × (rest : List Bytes) × (o ≡ some text)
        × (r ≡ good rest)
        × (text ∷ rest ≡ texts)
  then_envelopes_good none r texts h = absurd (ground arith)
  then_envelopes_good (some text) (bad e) texts h = absurd (ground arith)
  then_envelopes_good (some text) (good rest) texts h = (text, rest, refl, refl, ground arith)

  envelopes_back :
      (o : Option Ref) (list : Bytes) (s : S) (all : List Item) (from : ℕ) (items : List Item)
      (texts : List Bytes)
      → from + length items ≤ max_map_items
      → ((ref : Ref) → o ≡ some ref → IsResolved c law j_law store ref list s)
      → expand c.json.canonical list ≡ ok all
      → ((k : ℕ) (item : Item)
          → get_elem? items k ≡ some item
          → get_elem? all (from + k) ≡ some item)
      → item_envelopes c o items ≡ good texts
      → AllBack s items texts × AllCanonical c texts
  unfolding item_envelopes
  envelopes_back o list s all from [] texts few found listed there h =
      let none_left : [] ≡ texts = ground arith in
      subst (λ l. AllBack s [] l × AllCanonical c l) none_left (tt, tt)
  envelopes_back o list s all from (item ∷ items) texts few found listed there h =
      let (text, rest, encoded, later, whole) = then_envelopes_good _ _ texts h in
      let first = there 0 item refl in
      let (back, canonical) =
        envelopes_back o list s all (from + 1) items rest (omega arith) found listed
          (λ k other at.
            let shift : from + suc k ≡ from + 1 + k = omega arith in
            ap (get_elem? all) (sym shift) ∙ there (suc k) other at)
          later in
      let is_at = expand-IsItemAt c law list all (from + 0) item listed first in
      let low : item.index ≤ max_map_items =
        let at : item.index ≡ from + 0 = is_at.0 in omega arith in
      subst (λ l. AllBack s (item ∷ items) l × AllCanonical c l) whole
        (
          (
            item_back c law j_law store o (from + 0) all item list text s low found listed first
                encoded,
            back,
          ),
          (
            envelope_canonical o (from + 0) item text low
                (λ ref named. IsResolved-read c law j_law store ref list s (found ref named)) is_at
                encoded,
            canonical,
          ),
        )

  -- the output of ExpandItems for items: the marker of an empty list, or their envelopes
  abbrev pub Expanded : S → List Item → Bytes → Type 0
  Expanded s [] text = c.empty_list ≡ some text
  Expanded s (item ∷ items) text =
      (texts : List Bytes) × (c.json.canonical.elements text ≡ some texts)
      × AllBack s (item ∷ items) texts

  or_bad_good :
      {A : Type 0} (e : ParamError) (o : Option A) (a : A) → or_bad e o ≡ good a → o ≡ some a
  or_bad_good e none a h = absurd (ground arith)
  or_bad_good e (some b) a h = ground arith

  marshal_envelopes_good :
      (r : Result ParamError (List Bytes)) (text : Bytes)
      → marshal_envelopes c r ≡ good text
      → (texts : List Bytes) × (r ≡ good texts) × (c.json.canonical.marshal texts ≡ some text)
  marshal_envelopes_good (bad e) text h = absurd (ground arith)
  marshal_envelopes_good (good texts) text h = (texts, refl, or_bad_good _ _ text h)

  checked_items-Expanded :
      (v : Value) (items : List Item) (text : Bytes) (s : S)
      → ((ref : Ref) → v.ref ≡ some ref → IsResolved c law j_law store ref v.body s)
      → expand c.json.canonical v.body ≡ ok items
      → checked_items c v items ≡ good text
      → Expanded s items text
  checked_items-Expanded v [] text s found all h = or_bad_good _ c.empty_list text h
  checked_items-Expanded v (item ∷ items) text s found all h =
      elim (Bool-cases (ltb max_map_items (length (item ∷ items)))) [
        | inl many ↦ absurd (ground arith)
        | inr few ↦
            let bound : 0 + length (item ∷ items) ≤ max_map_items = ground arith in
            let (texts, encoded, written) =
              marshal_envelopes_good (item_envelopes c v.ref (item ∷ items)) text (ground arith) in
            let (back, canonical) =
              envelopes_back v.ref v.body s (item ∷ items) 0 (item ∷ items) texts bound found all
                (λ k other at.
                  let start : 0 + k ≡ k = omega arith in ap (get_elem? (item ∷ items)) start ∙ at)
                encoded in
            (texts, law.elements_back texts text canonical written, back)
      ]

  from_map_good : {A : Type 0} (r : Returns A) (a : A) → from_map r ≡ good a → r ≡ ok a
  from_map_good (ok b) a h = ground arith
  from_map_good (err e) a h = absurd (ground arith)

  expanded_good :
      (v : Value) (r : Result ParamError (List Item)) (text : Bytes)
      → expanded c v r ≡ good text
      → (items : List Item) × (r ≡ good items) × (checked_items c v items ≡ good text)
  expanded_good v (bad e) text h = absurd (ground arith)
  expanded_good v (good items) text h = (items, refl, h)

  -- DecodeItem reads back what ExpandItems writes. Where references are written in one canonical
  -- spelling, an envelope of a canonical body or of a reference with the index of a map item is
  -- encoded as canonical JSON that decodes to its fields, a list of canonical texts as JSON with
  -- these elements, canonical JSON stays as it is, and ExpandItems succeeds, its parameter
  -- decodes to a value whose body expands into items, and its output is the marker of an empty
  -- list if there are none, and otherwise a list of texts that DecodeItem in the same state
  -- decodes to the items, one by one.
  pub decode_item-expand_parameter :
      (param : Bytes) (s : S) (text : Bytes)
      → (expand_parameter c store param s).1 ≡ good text
      → (v : Value) × (items : List Item) × ((decode c.json store param s).1 ≡ good v)
        × (expand c.json.canonical v.body ≡ ok items)
        × Expanded s items text
  unfolding expand_parameter expand_value
  decode_item-expand_parameter param s text h =
      let (t, v, decoded, later) = resume_good (decode c.json store param s) _ h in
      let (items, listed, checked) = expanded_good v _ text later in
      let value = ap (λ x. x.1) decoded in
      let all = from_map_good (expand c.json.canonical v.body) items listed in
      (
        v,
        items,
        value,
        all,
        checked_items-Expanded v items text s
            (λ ref named. decode-IsResolved c law j_law store param s v ref value named) all
            checked,
      )
