-- ===== src/Params/ReadBack.antt =====
-- internal/valueparam/valueparam.go: Decode reads back what Encode returned.
use massive.Base.{
  ◌+◌, ◌≤◌, ◌<◌, Bytes, bytes_equal_refl, [], ◌∷◌, Bool-cases, true, false, ltb, leb, ◌==◌, Option,
  none, some, length, take, take-all, ◌≡◌, inl, inr, refl, sym, ap, ◌∙◌, arith,
}
use massive.Base.Results.{Result, good, bad, resume-of_good}
use massive.MapExec.Collect.{is_canonical}
use massive.Store.Keys.{Key, key}
use massive.Store.Contract.{StoreError, Opened, Datastore}
use massive.Params.Codec.{
  Ref, Value, Json, inline_limit, max_value_bytes, json_type, referenced, require_canonical,
  ref_parameter, ref_for, spell, encode_published, above, parse_ref, check_body, read_body,
  check_object, answer_open, resolve_at, resolve_from, resolve, blob_key, encode, decode_reference,
  inline_value, decode,
}
use massive.Params.RoundTrip.{IsJson}
use massive.Params.Encoded.{Uploaded, Encoded, short, long, encode-Encoded}

module _ (j : Json) where
  pub not_referenced :
      IsJson j → (body : Bytes) → is_canonical j.canonical body ≡ true → referenced body ≡ none
  not_referenced law [] fine = refl
  not_referenced law (b ∷ rest) fine = elim (Bool-cases (b == b'@')) [
    | inr other ↦ rw other refl
    | inl at ↦
        let same : b ≡ b'@' = ground arith in
        let never : is_canonical j.canonical (b ∷ rest) ≡ false =
          ap (λ x. is_canonical j.canonical (x ∷ rest)) same ∙ law.not_at rest in
        absurd (cc (fine, never))
  ]

  -- what Open answers for the body of a reference
  abbrev pub own_object : Key → Bytes → Opened
  own_object k body = record {
    info = record { key = k; size = length body; content_type = json_type };
    stream = some body;
  }

  check_own :
      (body : Bytes) (k : Key)
      → is_canonical j.canonical body ≡ true
      → check_object j (ref_for j body) (own_object k body) ≡ good body
  unfolding check_object read_body check_body ref_for
  check_own body k fine =
      let whole : take (length body + 1) body ≡ body = take-all _ body (omega arith) in
      rw (whole, bytes_equal_refl (j.digest body), fine) (ground arith)

  parse_own :
      IsJson j
      → (body : Bytes) → inline_limit < length body
      → length body ≤ max_value_bytes
      → parse_ref j inline_limit (j.ref_text (ref_for j body)) ≡ good (ref_for j body)
  unfolding parse_ref above
  parse_own law body large small =
      let big : leb (length body) inline_limit ≡ false = ground arith in
      let size : leb (ref_for j body).size inline_limit ≡ false = unfold ref_for in big in
      rw (law.ref_text_canonical (ref_for j body), law.read-ref_text body (omega arith) small, size)
        refl

module _ (j : Json) {S : Type 0} where
  -- the store answers with the body that was uploaded
  abbrev pub Answers : Option (Datastore S) → Bytes → S → Type 0
  Answers store body t =
      (d : Datastore S) (k : Key)
      → store ≡ some d
      → blob_key j (j.digest body) ≡ key k
      → (d.open_object k t).1 ≡ good (own_object j k body)

  answer_open_good :
      (store : Option (Datastore S)) (ref : Ref) (m : S × Result StoreError Opened) (o : Opened)
      → m.1 ≡ good o
      → (answer_open j store ref m).1 ≡ check_object j ref o
  answer_open_good store ref (s, bad e) o h = absurd (ground arith)
  answer_open_good store ref (s, good x) o h =
      let e : x ≡ o = ground arith in ap (check_object j ref) e

  resolve_own :
      (store : Option (Datastore S)) (body : Bytes) (t : S)
      → is_canonical j.canonical body ≡ true
      → Uploaded j store body
      → Answers store body t
      → (resolve j store (ref_for j body) t).1 ≡ good body
  unfolding resolve resolve_at ref_for
  resolve_own store body t fine up answers =
      let answer = answers up.open_store up.target up.has_store up.there in
      let checked =
        answer_open_good store (ref_for j body) (up.open_store.open_object up.target t) _ answer
        ∙ check_own j body up.target fine in
      ap (λ o. (resolve_from j store o (ref_for j body) t).1) up.has_store
      ∙ ap (λ k. (resolve_at j store up.open_store (ref_for j body) k t).1) up.there
      ∙ checked

  module _ (law : IsJson j) (store : Option (Datastore S)) (body : Bytes) (t : S)
      (fine : is_canonical j.canonical body ≡ true) where
    decode_short :
        length body ≤ inline_limit
        → (decode j store body t).1 ≡ good (record { body = body; ref = none })
    unfolding decode require_canonical inline_value
    decode_short fits =
        let close : ltb inline_limit (length body) ≡ false = ground arith in
        rw (not_referenced j law body fine, fine, close) refl

    decode_long :
        inline_limit < length body
        → Uploaded j store body
        → Answers store body t
        → (decode j store (ref_parameter j (ref_for j body)) t).1
          ≡ good (record { body = body; ref = some (ref_for j body) })
    unfolding decode decode_reference ref_parameter
    decode_long large up answers =
        resume-of_good (t, parse_ref j inline_limit (j.ref_text (ref_for j body))) _
          (ref_for j body) (parse_own j law body large up.small)
          (resume-of_good (resolve j store (ref_for j body) t) _ body
            (resolve_own store body t fine up answers) refl)

  decoded_back :
      (law : IsJson j) (store : Option (Datastore S)) (body text : Bytes) (t : S)
      → is_canonical j.canonical body ≡ true
      → Encoded j store body text
      → Answers store body t
      → (v : Value) × ((decode j store text t).1 ≡ good v) × (v.body ≡ body)
  decoded_back law store body text t fine (short same fits) answers = (
    record { body = body; ref = none },
    ap (λ x. (decode j store x t).1) same ∙ decode_short law store body t fine fits,
    refl,
  )
  decoded_back law store body text t fine (long same large up) answers = (
    record { body = body; ref = some (ref_for j body) },
    ap (λ x. (decode j store x t).1) same ∙ decode_long law store body t fine large up answers,
    refl,
  )

  -- Where references are written in one canonical spelling that the schema admits and no JSON
  -- text begins with @, a text that Encode returned for a body decodes to that body in every
  -- state in which the store answers with the body under the key of its digest.
  pub decode-encode :
      (law : IsJson j) (store : Option (Datastore S)) (body text : Bytes) (s t : S)
      → (encode j store body s).1 ≡ good text
      → Answers store body t
      → (v : Value) × ((decode j store text t).1 ≡ good v) × (v.body ≡ body)
  decode-encode law store body text s t h answers =
      let (fine, encoded) = encode-Encoded j store body s text h in
      decoded_back law store body text t fine encoded answers

  -- Where Encode succeeds, it returns the text that EncodePublished computes without an upload.
  pub encode-encode_published :
      (store : Option (Datastore S)) (body text : Bytes) (s : S)
      → (encode j store body s).1 ≡ good text
      → encode_published j body ≡ good text
  unfolding encode_published require_canonical spell
  encode-encode_published store body text s h =
      let (fine, encoded) = encode-Encoded j store body s text h in
      elim encoded [
        | short same fits ↦
            let fit : leb (length body) inline_limit ≡ true = ground arith in
            rw (fine, fit) (ap good (sym same))
        | long same large up ↦
            let big : leb (length body) inline_limit ≡ false = ground arith in
            rw (fine, big) (ap good (sym same))
      ]
