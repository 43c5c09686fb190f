-- ===== src/Params/MergeBounds.antt =====
-- internal/valueparam/valueparam.go, DecodeMerge: the array that it builds.
use mathlib.Core.Path.{subst}
use massive.Base.{
  ℕ, suc, ◌+◌, ◌≤◌, Bytes, List, [], ◌∷◌, Bool-cases, ltb, Option, length, length-append, ◌≡◌, inl,
  inr, refl, sym, ap, ◌∙◌, arith,
}
use massive.Base.Results.{Result, good, bad, resume, resume_good, give}
use massive.Store.Contract.{Datastore}
use massive.Params.Codec.{
  Ref, Value, ParamError, Json, encode_published, inline_limit, max_value_bytes, referenced,
  parse_ref, decode,
}
use massive.Params.Decoded.{inline, by_reference, decode-Decoded}
use massive.Params.Decoded.{parse_ref_good}
use massive.Params.RoundTrip.{IsJson, decode-encode_published}
use massive.Params.ReadBack.{not_referenced}
use massive.Params.Merge.{
  wrap_at, stateful_at, join_comma, json_array, size_of, size_as, declared_size, then_add,
  sum_sizes, decode_all, merge_checked, decode_merge,
}

total_length : List Bytes → ℕ
total_length [] = 0
total_length (b ∷ rest) = length b + total_length rest

length-join_comma :
    (b : Bytes) (rest : List Bytes)
    → length (join_comma (b ∷ rest)) + 1 ≡ length (b ∷ rest) + total_length (b ∷ rest)
unfolding join_comma total_length
length-join_comma b [] = omega arith
length-join_comma b (c ∷ rest) =
    omega (arith, length-join_comma c rest, length-append {0} b (b',' ∷ join_comma (c ∷ rest)))

length-json_array :
    (bodies : List Bytes) (limit : ℕ)
    → 2 ≤ limit
    → length bodies + 1 + total_length bodies ≤ limit
    → length (json_array bodies) ≤ limit
unfolding json_array join_comma
length-json_array [] limit two h = omega arith
length-json_array (b ∷ rest) limit two h =
    omega (arith, length-join_comma b rest, length-append {0} (join_comma (b ∷ rest)) (b']' ∷ []))

-- The parameters are the spellings of the bodies, one by one.
unfoldable pub Spells : Json → List Bytes → List Bytes → Type 0
Spells j [] [] = Unit
Spells j (text ∷ texts) (body ∷ bodies) =
    (encode_published j body ≡ good text) × Spells j texts bodies
Spells j _ _ = ⊥

module _ (j : Json) (law : IsJson j) {S : Type 0} (store : Option (Datastore S)) where
  size_of-good :
      (r : Result ParamError Ref) (m : ℕ)
      → size_of j r ≡ good m
      → (ref : Ref) × (r ≡ good ref) × (ref.size ≡ m)
  size_of-good (good ref) m h = (ref, refl, ground arith)
  size_of-good (bad e) m h = cc

  -- The declared size of a parameter is the length of its value.
  declared_size-decode :
      (text : Bytes) (s : S) (v : Value) (m : ℕ)
      → declared_size j text ≡ good m
      → (decode j store text s).1 ≡ good v
      → length v.body ≡ m
  unfolding declared_size
  declared_size-decode text s v m size h = elim (decode-Decoded j store text s v h) [
    | inline e fine short ↦
        let plain : size_as j text (referenced text) ≡ good (length text) =
          ap (size_as j text) (not_referenced j law text fine) in
        ap (λ (x : Value). length x.body) e ∙ ground arith
    | by_reference rest ref e fine found big value names ↦
        let declared : size_of j (parse_ref j inline_limit rest) ≡ good m =
          ap (λ t. size_as j t (referenced t)) (sym e) ∙ size in
        let (r, parsed, same) = size_of-good (parse_ref j inline_limit rest) m declared in
        let (_, read, _) = parse_ref_good j inline_limit rest r parsed in
        let equal : r ≡ ref = ground arith in
        names.size ∙ sym (ap (λ (x : Ref). x.size) equal) ∙ same
  ]

  wrap_good {ℓ} :
      {A : Type ℓ} (i : ℕ) (r : Result ParamError A) (a : A) → wrap_at i r ≡ good a → r ≡ good a
  wrap_good i (good b) a h = h
  wrap_good i (bad e) a h = cc

  stateful_good :
      (i : ℕ) (m : S × Result ParamError Value) (v : Value)
      → (stateful_at i m).1 ≡ good v
      → m.1 ≡ good v
  stateful_good i (s, r) v h = wrap_good i r v h

  then_add_good :
      (a b : Result ParamError ℕ) (n : ℕ)
      → then_add j a b ≡ good n
      → (x : ℕ) × (y : ℕ) × (a ≡ good x) × (b ≡ good y) × (n ≡ x + y)
  then_add_good (good x) (good y) n h = (x, y, refl, refl, ground arith)
  then_add_good (good x) (bad e) n h = cc
  then_add_good (bad e) b n h = cc

  decode_all_lem :
      (i : ℕ) (texts : List Bytes) (s : S) (bodies : List Bytes) (n : ℕ)
      → sum_sizes j i texts ≡ good n
      → (decode_all j store i texts s).1 ≡ good bodies
      → (total_length bodies ≡ n) × (length bodies ≡ length texts) × Spells j texts bodies
  unfolding sum_sizes decode_all total_length Spells
  decode_all_lem i [] s bodies n size h =
      let e : [] ≡ bodies = ground arith in
      subst (λ b. (total_length b ≡ n) × (length b ≡ 0) × Spells j [] b) e (ground arith, refl, tt)
  decode_all_lem i (text ∷ texts) s bodies n size h =
      let (x, y, first, others, sum) =
        then_add_good (wrap_at i (declared_size j text)) (sum_sizes j (i + 1) texts) n size in
      let (s', v, decoded, later) = resume_good (stateful_at i (decode j store text s)) _ h in
      let one = stateful_good i (decode j store text s) v (ap (λ m. m.1) decoded) in
      let (s'', rest, all, end) = resume_good (decode_all j store (i + 1) texts s') _ later in
      let (ih, count, spells) = decode_all_lem (i + 1) texts s' rest y others (ap (λ m. m.1) all) in
      let here = declared_size-decode text s v x (wrap_good i (declared_size j text) x first) one in
      let spelled = (decode-encode_published j law store text s v one).0 in
      let e : v.body ∷ rest ≡ bodies = ground arith in
      subst
        (λ b. (total_length b ≡ n) × (length b ≡ suc (length texts)) × Spells j (text ∷ texts) b) e
        (omega arith, omega arith, (spelled, spells))

  merge_checked_lem :
      (texts : List Bytes) (n : ℕ) (s : S) (out : Bytes)
      → sum_sizes j 0 texts ≡ good n
      → (merge_checked j store texts n s).1 ≡ good out
      → (length out ≤ max_value_bytes)
        × ((bodies : List Bytes) × (out ≡ json_array bodies) × Spells j texts bodies)
  unfolding merge_checked
  merge_checked_lem texts n s out size h =
      elim (Bool-cases (ltb max_value_bytes (length texts + 1 + n))) [
        | inl large ↦ absurd (ground arith)
        | inr small ↦
            let run : (resume (decode_all j store 0 texts s) (λ bodies. give (json_array bodies))).1
                ≡ good out =
              ground arith in
            let (t, bodies, all, end) = resume_good (decode_all j store 0 texts s) _ run in
            let (total, count, spells) =
              decode_all_lem 0 texts s bodies n size (ap (λ m. m.1) all) in
            let e : json_array bodies ≡ out = cc end in
            (
              subst (λ o. length o ≤ max_value_bytes) e
                  (length-json_array bodies max_value_bytes (omega arith) (ground arith)),
              (bodies, sym e, spells),
            )
      ]

  -- Where references are written in one canonical spelling and no JSON text begins with @, a
  -- merged input is at most 256 MiB long and is the JSON array of values, in the order of the
  -- parameters, each of which has its parameter as its published encoding.
  pub decode_merge_sound :
      (texts : List Bytes) (s : S) (out : Bytes)
      → (decode_merge j store texts s).1 ≡ good out
      → (length out ≤ max_value_bytes)
        × ((bodies : List Bytes) × (out ≡ json_array bodies) × Spells j texts bodies)
  unfolding decode_merge
  decode_merge_sound texts s out h =
      let (s', n, size, later) = resume_good (s, sum_sizes j 0 texts) _ h in
      merge_checked_lem texts n s' out (ap (λ m. m.1) size) later
