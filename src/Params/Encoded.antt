-- ===== src/Params/Encoded.antt =====
-- internal/valueparam/valueparam.go, Encode: what it returns, and that Decode reads it back.
use massive.Base.{
  ◌≤◌, ◌<◌, Bytes, Bool-cases, true, ltb, leb, Option, none, some, length, ◌≡◌, inl, inr, refl, sym,
  ap, ◌∙◌, arith,
}
use massive.Base.Results.{Result, good, bad, resume, resume_good, give}
use massive.MapExec.Collect.{is_canonical}
use massive.Store.Keys.{Key, Parsed, key, invalid}
use massive.Store.Contract.{
  StoreError, invalid_key, not_found, access_denied, already_exists, failed, ObjectInfo, Datastore,
}
use massive.Params.Codec.{
  Ref, Json, inline_limit, max_value_bytes, require_canonical, ref_parameter, ref_for, blob_key,
  answer_put, publish_at, publish, encode_canonical, encode,
}

module _ (j : Json) {S : Type 0} where
  answer_put_good :
      (store : Option (Datastore S)) (ref r : Ref) (m : S × Result StoreError ObjectInfo)
      → (answer_put j store ref m).1 ≡ good r
      → r ≡ ref
  unfolding answer_put
  answer_put_good store ref r (s, good info) h = cc
  answer_put_good store ref r (s, bad already_exists) h = cc
  answer_put_good store ref r (s, bad invalid_key) h = cc
  answer_put_good store ref r (s, bad not_found) h = cc
  answer_put_good store ref r (s, bad access_denied) h = cc
  answer_put_good store ref r (s, bad (failed e)) h = cc

  -- where an uploaded body is
  pub record Uploaded (store : Option (Datastore S)) (body : Bytes) : Type 0 where
    pub target : Key
    pub there : blob_key j (j.digest body) ≡ key target
    pub small : length body ≤ max_value_bytes
    pub open_store : Datastore S
    pub has_store : store ≡ some open_store

  publish_at_good :
      (store : Option (Datastore S)) (d : Datastore S) (body : Bytes) (k : Parsed) (s : S) (r : Ref)
      → (publish_at j store d body k s).1 ≡ good r
      → (r ≡ ref_for j body) × ((t : Key) × (k ≡ key t))
  unfolding publish_at
  publish_at_good store d body (invalid e) s r h = cc
  publish_at_good store d body (key k) s r h =
      (answer_put_good store (ref_for j body) r _ h, (k, refl))

  publish_good :
      (store : Option (Datastore S)) (body : Bytes) (s : S) (r : Ref)
      → (publish j store body s).1 ≡ good r
      → (r ≡ ref_for j body) × Uploaded store body
  unfolding publish
  publish_good none body s r h = cc
  publish_good (some d) body s r h = elim (Bool-cases (ltb max_value_bytes (length body))) [
    | inl long ↦ absurd (ground arith)
    | inr short ↦
        let at : (publish_at j (some d) d body (blob_key j (j.digest body)) s).1 ≡ good r =
          ground arith in
        let (same, (k, there)) = publish_at_good (some d) d body _ s r at in
        (
          same,
          record {
            target = k;
            there = there;
            small = ground arith;
            open_store = d;
            has_store = refl;
          },
        )
  ]

  -- what Encode returns
  pub data Encoded (store : Option (Datastore S)) (body text : Bytes) : Type 0 where
    short : text ≡ body → length body ≤ inline_limit → Encoded store body text
    long :
        text ≡ ref_parameter j (ref_for j body)
        → inline_limit < length body
        → Uploaded store body
        → Encoded store body text

  encode_canonical-Encoded :
      (store : Option (Datastore S)) (body : Bytes) (s : S) (text : Bytes)
      → (encode_canonical j store body s).1 ≡ good text
      → Encoded store body text
  unfolding encode_canonical
  encode_canonical-Encoded store body s text h =
      elim (Bool-cases (leb (length body) inline_limit)) [
        | inl fits ↦ short (ground arith) (ground arith)
        | inr large ↦
            let uploaded : (resume (publish j store body s) (λ ref. give (ref_parameter j ref))).1
                ≡ good text =
              ground arith in
            let (t, ref, first, end) = resume_good (publish j store body s) _ uploaded in
            let (same, up) = publish_good store body s ref (ap (λ x. x.1) first) in
            let named : ref_parameter j ref ≡ text = cc end in
            long (sym named ∙ ap (ref_parameter j) same) (ground arith) up
      ]

  pub encode-Encoded :
      (store : Option (Datastore S)) (body : Bytes) (s : S) (text : Bytes)
      → (encode j store body s).1 ≡ good text
      → (is_canonical j.canonical body ≡ true) × Encoded store body text
  unfolding encode require_canonical
  encode-Encoded store body s text h = elim (Bool-cases (is_canonical j.canonical body)) [
    | inr other ↦ absurd (ground arith)
    | inl fine ↦ (fine, encode_canonical-Encoded store body s text (ground arith))
  ]
