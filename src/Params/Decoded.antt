-- ===== src/Params/Decoded.antt =====
-- internal/valueparam/valueparam.go, Decode: what a decoded parameter looked like.
use mathlib.Core.Path.{subst}
use massive.Base.{
  ℕ, ◌+◌, ◌≤◌, ◌<◌, Bytes, bytes_equal_iff, [], ◌∷◌, Bool-cases, true, Option, Option-cases, none,
  some, length, take, ◌≡◌, inl, inr, refl, sym, ap, arith,
}
use massive.Base.Results.{Result, good, bad, resume_good}
use massive.MapExec.Collect.{is_canonical}
use massive.Store.Keys.{Parsed, key, invalid}
use massive.Store.Contract.{StoreError, Opened, Datastore}
use massive.Params.Codec.{
  Ref, Value, Json, inline_limit, referenced, require_canonical, above, parse_ref, check_body,
  read_body, check_object, answer_open, resolve_at, resolve_from, resolve, blob_key,
  decode_reference, inline_value, decode_as, decode,
}

module _ (j : Json) where
  open j use {canonical, digest, ref_text, read_ref}

  -- a body that a reference names
  pub record Names (ref : Ref) (body : Bytes) : Type 0 where
    pub size : length body ≡ ref.size
    pub hash : digest body ≡ ref.hash
    pub canonical : is_canonical j.canonical body ≡ true

  check_body-Names :
      (ref : Ref) (body out : Bytes) → check_body j ref body ≡ good out → Names ref out
  unfolding check_body
  check_body-Names ref body out h =
      let same : body ≡ out = ground arith in
      subst (Names ref) same (record {
        size = ground arith;
        hash = (bytes_equal_iff _ _).0 (ground arith);
        canonical = ground arith;
      })

  check_object-Names :
      (ref : Ref) (o : Opened) (out : Bytes) → check_object j ref o ≡ good out → Names ref out
  unfolding check_object read_body
  check_object-Names ref o out h = elim (Option-cases o.stream) [
    | inl e ↦ absurd (ground arith)
    | inr (stream, e) ↦ check_body-Names ref (take (ref.size + 1) stream) out (ground arith)
  ]

  above_good :
      (limit : ℕ) (o : Option Ref) (ref : Ref)
      → above j limit o ≡ good ref
      → (o ≡ some ref) × (limit < ref.size)
  unfolding above
  above_good limit none ref h = cc
  above_good limit (some r) ref h =
      let same : r ≡ ref = ground arith in
      let big : limit < r.size = ground arith in
      (ap some same, subst (λ x. limit < x.size) same big)

  pub parse_ref_good :
      (limit : ℕ) (body : Bytes) (ref : Ref)
      → parse_ref j limit body ≡ good ref
      → (is_canonical j.canonical body ≡ true) × (read_ref body ≡ some ref) × (limit < ref.size)
  unfolding parse_ref
  parse_ref_good limit body ref h = elim (Bool-cases (is_canonical j.canonical body)) [
    | inr other ↦ absurd (ground arith)
    | inl fine ↦
        let (found, big) = above_good limit (read_ref body) ref (ground arith) in (fine, found, big)
  ]

  module _ {S : Type 0} (store : Option (Datastore S)) where
    answer_open-Names :
        (ref : Ref) (o : S × Result StoreError Opened) (out : Bytes)
        → (answer_open j store ref o).1 ≡ good out
        → Names ref out
    answer_open-Names ref (s, bad e) out h = cc
    answer_open-Names ref (s, good o) out h = check_object-Names ref o out h

    resolve_at-Names :
        (d : Datastore S) (ref : Ref) (k : Parsed) (s : S) (out : Bytes)
        → (resolve_at j store d ref k s).1 ≡ good out
        → Names ref out
    unfolding resolve_at
    resolve_at-Names d ref (invalid e) s out h = cc
    resolve_at-Names d ref (key k) s out h = answer_open-Names ref (d.open_object k s) out h

    resolve_from-Names :
        (o : Option (Datastore S)) (ref : Ref) (s : S) (out : Bytes)
        → (resolve_from j store o ref s).1 ≡ good out
        → Names ref out
    resolve_from-Names none ref s out h = cc
    resolve_from-Names (some d) ref s out h = resolve_at-Names d ref (blob_key j ref.hash) s out h

    -- Whatever the store answers, a body that is returned is the one that the reference names.
    pub resolve-Names :
        (ref : Ref) (s : S) (out : Bytes) → (resolve j store ref s).1 ≡ good out → Names ref out
    unfolding resolve
    resolve-Names ref s out h = resolve_from-Names store ref s out h

    -- the two spellings of a parameter
    pub data Decoded (text : Bytes) (v : Value) : Type 0 where
      inline :
          v ≡ record { body = text; ref = none }
          → is_canonical j.canonical text ≡ true
          → length text ≤ inline_limit
          → Decoded text v
      by_reference :
          (rest : Bytes) (ref : Ref)
          → text ≡ b'@' ∷ rest
          → is_canonical j.canonical rest ≡ true
          → read_ref rest ≡ some ref
          → inline_limit < ref.size
          → v.ref ≡ some ref
          → Names ref v.body
          → Decoded text v

    decode_reference-Decoded :
        (text rest : Bytes) (s : S) (v : Value)
        → text ≡ b'@' ∷ rest
        → (decode_reference j store rest s).1 ≡ good v
        → Decoded text v
    unfolding decode_reference
    decode_reference-Decoded text rest s v e h =
        let (s', ref, parsed, later) = resume_good (s, parse_ref j inline_limit rest) _ h in
        let (fine, found, big) = parse_ref_good inline_limit rest ref (ap (λ x. x.1) parsed) in
        let (s'', body, resolved, end) = resume_good (resolve j store ref s') _ later in
        let names = resolve-Names ref s' body (ap (λ x. x.1) resolved) in
        let value : record { body = body; ref = some ref } ≡ v = cc end in
        by_reference rest ref e fine found big (ap (λ x. x.ref) (sym value))
          (subst (λ x. Names ref x.body) value names)

    decode_inline-Decoded :
        (text : Bytes) (s : S) (v : Value)
        → (decode_as j store text none s).1 ≡ good v
        → Decoded text v
    unfolding require_canonical inline_value
    decode_inline-Decoded text s v h = elim (Bool-cases (is_canonical j.canonical text)) [
      | inr other ↦ absurd (ground arith)
      | inl fine ↦ inline (ground arith) fine (ground arith)
    ]

    decode_as-Decoded :
        (text : Bytes) (after : Option Bytes) (s : S) (v : Value)
        → ((rest : Bytes) → after ≡ some rest → text ≡ b'@' ∷ rest)
        → (decode_as j store text after s).1 ≡ good v
        → Decoded text v
    decode_as-Decoded text none s v prefix h = decode_inline-Decoded text s v h
    decode_as-Decoded text (some rest) s v prefix h =
        decode_reference-Decoded text rest s v (prefix rest refl) h

    referenced_prefix : (text rest : Bytes) → referenced text ≡ some rest → text ≡ b'@' ∷ rest
    referenced_prefix [] rest h = cc
    referenced_prefix (b ∷ text) rest h = ground arith

    pub decode-Decoded :
        (text : Bytes) (s : S) (v : Value) → (decode j store text s).1 ≡ good v → Decoded text v
    unfolding decode
    decode-Decoded text s v h =
        decode_as-Decoded text (referenced text) s v (referenced_prefix text) h
