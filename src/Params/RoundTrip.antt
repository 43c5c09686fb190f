-- ===== src/Params/RoundTrip.antt =====
-- internal/valueparam/valueparam.go: Encode and Decode are inverse to each other.
use mathlib.Core.Path.{subst}
use massive.Base.{
  ◌≤◌, Bytes, ◌∷◌, true, false, leb, Option, some, length, ◌≡◌, refl, sym, ap, ◌∙◌, arith,
}
use massive.Base.Results.{good}
use massive.MapExec.Collect.{is_canonical}
use massive.Store.Contract.{Datastore}
use massive.Params.Codec.{
  Ref, Value, Json, inline_limit, max_value_bytes, require_canonical, parameter, ref_parameter,
  ref_for, spell, encode_published, decode,
}
use massive.Params.Decoded.{Names, inline, by_reference, decode-Decoded}

-- what the program relies on: a reference is encoded as canonical JSON of one spelling, which
-- satisfies the schema where its size does, and no JSON text begins with @
pub record IsJson (j : Json) : Type 0 where
  pub ref_text_canonical : (ref : Ref) → is_canonical j.canonical (j.ref_text ref) ≡ true
  pub read-ref_text :
      (body : Bytes)
      → 1 ≤ length body
      → length body ≤ max_value_bytes
      → j.read_ref (j.ref_text (ref_for j body)) ≡ some (ref_for j body)
  pub ref_text-read :
      (text : Bytes) (ref : Ref)
      → is_canonical j.canonical text ≡ true
      → j.read_ref text ≡ some ref
      → j.ref_text ref ≡ text
  pub not_at : (rest : Bytes) → is_canonical j.canonical (b'@' ∷ rest) ≡ false

module _ (j : Json) (law : IsJson j) {S : Type 0} (store : Option (Datastore S)) where
  Names-ref_for : (ref : Ref) (body : Bytes) → Names j ref body → ref_for j body ≡ ref
  unfolding ref_for
  Names-ref_for ref body n = ground arith

  published :
      (body : Bytes)
      → is_canonical j.canonical body ≡ true
      → encode_published j body ≡ good (spell j body)
  unfolding encode_published require_canonical
  published body fine = rw fine refl

  -- Where references are written in one canonical spelling and no JSON text begins with @,
  -- whatever the store answers, a parameter that Decode accepts is what EncodePublished returns
  -- for the decoded body, and forwarding the value gives the parameter back.
  pub decode-encode_published :
      (text : Bytes) (s : S) (v : Value)
      → (decode j store text s).1 ≡ good v
      → (encode_published j v.body ≡ good text) × (parameter j v ≡ text)
  unfolding spell parameter ref_parameter
  decode-encode_published text s v h = elim (decode-Decoded j store text s v h) [
    | inline e fine short ↦
        subst (λ (x : Value). (encode_published j x.body ≡ good text) × (parameter j x ≡ text))
          (sym e) (published text fine ∙ ground arith, refl)
    | by_reference rest ref e fine found big value names ↦
        let same : ref_for j v.body ≡ ref = Names-ref_for ref v.body names in
        let written : j.ref_text ref ≡ rest = law.ref_text-read rest ref fine found in
        let long : leb (length v.body) inline_limit ≡ false =
          let size = names.size in ground arith in
        let text_back : b'@' ∷ j.ref_text ref ≡ text = ap (λ r. b'@' ∷ r) written ∙ sym e in
        (
          published v.body names.canonical ∙ (rw (long, same) (ap good text_back)),
          rw value text_back,
        )
  ]
