-- ===== src/Params/Panics.antt =====
-- internal/valueparam/valueparam.go: parseEnvelope lets an envelope without an index pass only as a
-- marker, so `*fields.Index` is never read from nil.
use massive.Base.{
  ℕ, ◌+◌, Bytes, List, Bool, Bool-cases, false, ◌||◌, Option, Option-cases, none, some, ℤ, pos,
  negsuc, take, get_elem?, ◌≡◌, ◌≢◌, inl, inr, refl, sym, ap, ◌∙◌, arith,
}
use massive.Base.Results.{Result, good, bad, Stateful, resume, give}
use massive.MapExec.Collect.{Item, Returns, ok, err, expand}
use massive.Store.Keys.{Parsed, key, invalid}
use massive.Store.Contract.{StoreError, Opened, Datastore}
use massive.Params.Codec.{
  Ref, ParamError, panicked, Json, above, parse_ref, check_body, read_body, check_object,
  answer_open, resolve_at, resolve_from, resolve, blob_key, inline_limit,
}
use massive.Params.Envelope.{
  Envelope, EnvelopeJson, is_set, is_lost, is_outcome, no_dense_index, check_envelope, at_index,
  index_of, read_canonical, parse_envelope,
}
use massive.Params.Items.{
  same_set, from_map, inline_item, select_item, listed_item, carried_item, item_of, decode_item,
}

abbrev IsCalm : {A : Type 0} → Result ParamError A → Type 0
IsCalm r = r ≢ bad panicked

resume-IsCalm :
    {S A B : Type 0} (first : S × Result ParamError A) (later : A → Stateful S ParamError B)
    → IsCalm first.1
    → ((s : S) (a : A) → first ≡ (s, good a) → IsCalm (later a s).1)
    → IsCalm (resume first later).1
resume-IsCalm (s, good a) later calm next = next s a refl
resume-IsCalm (s, bad e) later calm next = λ h. calm (cc h)

module _ (j : Json) where
  above-IsCalm : (limit : ℕ) (o : Option Ref) → IsCalm (above j limit o)
  unfolding above
  above-IsCalm limit none = λ h. cc
  above-IsCalm limit (some ref) = λ h. ground arith

  parse_ref-IsCalm : (limit : ℕ) (text : Bytes) → IsCalm (parse_ref j limit text)
  unfolding parse_ref
  parse_ref-IsCalm limit text =
      λ h. let calm = above-IsCalm limit (j.read_ref text) in ground (arith, calm)

  check_body-IsCalm : (ref : Ref) (body : Bytes) → IsCalm (check_body j ref body)
  unfolding check_body
  check_body-IsCalm ref body = λ h. ground arith

  read_body-IsCalm : (ref : Ref) (o : Option Bytes) → IsCalm (read_body j ref o)
  unfolding read_body
  read_body-IsCalm ref none = λ h. cc
  read_body-IsCalm ref (some stream) = check_body-IsCalm ref (take (ref.size + 1) stream)

  check_object-IsCalm : (ref : Ref) (o : Opened) → IsCalm (check_object j ref o)
  unfolding check_object
  check_object-IsCalm ref o = λ h. let calm = read_body-IsCalm ref o.stream in ground (arith, calm)

  module _ {S : Type 0} (store : Option (Datastore S)) where
    answer_open-IsCalm :
        (ref : Ref) (m : S × Result StoreError Opened) → IsCalm (answer_open j store ref m).1
    answer_open-IsCalm ref (s, bad e) = λ h. cc
    answer_open-IsCalm ref (s, good o) = check_object-IsCalm ref o

    resolve_from-IsCalm :
        (o : Option (Datastore S)) (k : Parsed) (ref : Ref) (s : S)
        → blob_key j ref.hash ≡ k
        → IsCalm (resolve_from j store o ref s).1
    unfolding resolve_at
    resolve_from-IsCalm none k ref s e = λ h. cc
    resolve_from-IsCalm (some d) (invalid x) ref s e = rw e (λ h. cc)
    resolve_from-IsCalm (some d) (key k) ref s e = rw e (answer_open-IsCalm ref (d.open_object k s))

    resolve-IsCalm : (ref : Ref) (s : S) → IsCalm (resolve j store ref s).1
    unfolding resolve
    resolve-IsCalm ref s = resolve_from-IsCalm store (blob_key j ref.hash) ref s refl

abbrev is_marker : Envelope → Bool
is_marker fields = fields.empty || is_lost fields || fields.fatal

check_envelope_same : (fields out : Envelope) → check_envelope fields ≡ good out → fields ≡ out
unfolding check_envelope
check_envelope_same fields out h = elim (Bool-cases (is_marker fields)) [
  | inl marker ↦ ground arith
  | inr other ↦ ground arith
]

check_envelope_dense :
    (fields out : Envelope)
    → check_envelope fields ≡ good out
    → is_marker fields ≡ false
    → no_dense_index fields.index ≡ false
unfolding check_envelope
check_envelope_dense fields out h other = ground arith

dense_index : (o : Option ℤ) → no_dense_index o ≡ false → (n : ℕ) × (o ≡ some (pos n))
dense_index none h = cc
dense_index (some (pos n)) h = (n, refl)
dense_index (some (negsuc n)) h = cc

module _ (c : EnvelopeJson) where
  read_canonical_good :
      (o : Option Bytes) (fields : Envelope)
      → read_canonical c o ≡ good fields
      → check_envelope fields ≡ good fields
  read_canonical_good none fields h = cc
  read_canonical_good (some body) fields h = elim (Option-cases (c.read_envelope body)) [
    | inl e ↦ absurd (ground arith)
    | inr (raw, e) ↦
        let checked : check_envelope raw ≡ good fields = ground arith in
        let same = check_envelope_same raw fields checked in ap check_envelope (sym same) ∙ checked
  ]

  -- An envelope that is no marker has an index.
  pub parse_envelope_index :
      (body : Bytes) (fields : Envelope)
      → parse_envelope c body ≡ good fields
      → is_marker fields ≡ false
      → (n : ℕ) × (index_of fields ≡ good n)
  unfolding parse_envelope index_of
  parse_envelope_index body fields h other =
      let checked = read_canonical_good (c.json.canonical.canonicalize body) fields h in
      let (n, e) = dense_index fields.index (check_envelope_dense fields fields checked other) in
      (n, ap at_index e)

  check_envelope-IsCalm : (fields : Envelope) → IsCalm (check_envelope fields)
  unfolding check_envelope
  check_envelope-IsCalm fields = λ h. ground arith

  read_canonical-IsCalm : (o : Option Bytes) → IsCalm (read_canonical c o)
  read_canonical-IsCalm none = λ h. cc
  read_canonical-IsCalm (some body) = elim (Option-cases (c.read_envelope body)) [
    | inl e ↦ λ h. ground arith
    | inr (fields, e) ↦ λ h. let calm = check_envelope-IsCalm fields in ground (arith, calm)
  ]

  from_map-IsCalm : {A : Type 0} (r : Returns A) → IsCalm (from_map r)
  from_map-IsCalm (ok a) = λ h. cc
  from_map-IsCalm (err e) = λ h. cc

  -- an index that is there
  module _ (fields : Envelope) (n : ℕ) (dense : index_of fields ≡ good n) where
    inline_item-IsCalm : (text : Bytes) → IsCalm (inline_item c fields text)
    unfolding inline_item
    inline_item-IsCalm text = elim (Option-cases (c.json.canonical.canonicalize text)) [
      | inl e ↦ λ h. ground arith
      | inr (body, e) ↦ λ h. ground arith
    ]

    select_item-IsCalm :
        (r : Result ParamError (List Item)) → IsCalm r → IsCalm (select_item c fields r)
    select_item-IsCalm (bad e) calm = λ h. calm (cc h)
    select_item-IsCalm (good items) calm = elim (Option-cases (get_elem? items n)) [
      | inl e ↦ λ h. ground arith
      | inr (item, e) ↦ λ h. ground arith
    ]

    module _ {S : Type 0} (store : Option (Datastore S)) where
      listed_item-IsCalm : (text : Bytes) (s : S) → IsCalm (listed_item c store fields text s).1
      unfolding listed_item
      listed_item-IsCalm text s =
          resume-IsCalm (s, parse_ref c.json inline_limit text) _
            (parse_ref-IsCalm c.json inline_limit text)
            λ t ref _.
              resume-IsCalm (resolve c.json store ref t) _ (resolve-IsCalm c.json store ref t)
                λ u list _. select_item-IsCalm _ (from_map-IsCalm (expand c.json.canonical list))

      carried_item-IsCalm :
          (value list : Option Bytes) (s : S)
          → same_set value list ≡ false
          → IsCalm (carried_item c store fields value list s).1
      carried_item-IsCalm (some text) list s one = inline_item-IsCalm text
      carried_item-IsCalm none (some text) s one = listed_item-IsCalm text s
      carried_item-IsCalm none none s one = absurd (cc one)

  module _ {S : Type 0} (store : Option (Datastore S)) where
    item_of-IsCalm :
        (fields : Envelope) (s : S)
        → (is_marker fields ≡ false → (n : ℕ) × (index_of fields ≡ good n))
        → IsCalm (item_of c store fields s).1
    unfolding item_of is_outcome
    item_of-IsCalm fields s dense = elim (Bool-cases fields.empty) [
      | inl e ↦ λ h. ground arith
      | inr filled ↦
          elim (Bool-cases
            (is_set fields.ref || is_outcome fields || same_set fields.value fields.list_ref)) [
              | inl refused ↦ λ h. ground arith
              | inr fine ↦
                  let (n, index) = dense (ground arith) in
                  let calm =
                    resume-IsCalm (carried_item c store fields fields.value fields.list_ref s)
                      (λ item. give (some item))
                      (carried_item-IsCalm fields n index store fields.value fields.list_ref s
                        (ground arith))
                      (λ t item _ h. cc h) in
                  λ h. calm (ground arith)
            ]
    ]

    -- Whatever the envelope and the store are, DecodeItem does not read an index that is
    -- missing.
    pub decode_item-IsCalm : (body : Bytes) (s : S) → (decode_item c store body s).1 ≢ bad panicked
    unfolding decode_item parse_envelope
    decode_item-IsCalm body s =
        resume-IsCalm (s, parse_envelope c body) _
          (read_canonical-IsCalm (c.json.canonical.canonicalize body))
          λ t fields e. item_of-IsCalm fields t (parse_envelope_index body fields (ap (λ m. m.1) e))
