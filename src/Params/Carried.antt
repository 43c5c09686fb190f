-- ===== src/Params/Carried.antt =====
-- internal/valueparam/valueparam.go, itemValue and inlineOrReferenced: the body that an envelope carries.
use mathlib.Core.Path.{subst}
use massive.Base.{
  ℕ, ◌≤◌, Bytes, Bool-cases, false, ltb, Option, none, some, ℤ, pos, negsuc, length, ◌≡◌, inl, inr,
  refl, ap, arith,
}
use massive.Base.Results.{Result, good, bad, resume_good}
use massive.Store.Contract.{Datastore}
use massive.Params.Codec.{Ref, ParamError, item_inline_limit, parse_ref}
use massive.Params.Decoded.{Names, resolve-Names}
use massive.Params.Merge.{wrap_at}
use massive.Params.Items.{same_set}
use massive.Params.Envelope.{Envelope, EnvelopeJson, is_set, index_of, at_index}
use massive.Params.CollectItems.{short_inline, body_of, inline_or_referenced, item_value}

-- a body that is carried inline, or by a reference whose digest and size it has
pub data Carries (c : EnvelopeJson) (inline referenced : Option Bytes) (body : Bytes) : Type 0 where
  short :
      (text : Bytes)
      → inline ≡ some text
      → referenced ≡ none
      → c.json.canonical.canonicalize text ≡ some body
      → length body ≤ item_inline_limit
      → Carries c inline referenced body
  named :
      (text : Bytes) (ref : Ref)
      → inline ≡ none
      → referenced ≡ some text
      → parse_ref c.json item_inline_limit text ≡ good ref
      → Names c.json ref body
      → Carries c inline referenced body

pub is_set-none : {A : Type 0} (o : Option A) → is_set o ≡ false → o ≡ none
is_set-none none h = refl
is_set-none (some a) h = absurd (ground arith)

at_index-pos : (o : Option ℤ) (i : ℕ) → at_index o ≡ good i → o ≡ some (pos i)
at_index-pos none i h = absurd (ground arith)
at_index-pos (some (pos n)) i h = ground arith
at_index-pos (some (negsuc n)) i h = absurd (ground arith)

pub index_of-pos :
    (fields : Envelope) (i : ℕ) → index_of fields ≡ good i → fields.index ≡ some (pos i)
unfolding index_of
index_of-pos fields i h = at_index-pos fields.index i h

wrap_at_good :
    {A : Type 0} (position : ℕ) (r : Result ParamError A) (a : A)
    → wrap_at position r ≡ good a
    → r ≡ good a
wrap_at_good position (good b) a h = h
wrap_at_good position (bad e) a h = absurd (ground arith)

module _ (c : EnvelopeJson) where
  short_inline_good :
      (o : Option Bytes) (body : Bytes)
      → short_inline c o ≡ good body
      → (o ≡ some body) × (length body ≤ item_inline_limit)
  short_inline_good none body h = absurd (ground arith)
  short_inline_good (some text) body h = elim (Bool-cases (ltb item_inline_limit (length text))) [
    | inl long ↦ absurd (ground arith)
    | inr fine ↦
        let same : text ≡ body = ground arith in
        (ap some same, subst (λ x. length x ≤ item_inline_limit) same (ground arith))
  ]

  module _ {S : Type 0} (store : Option (Datastore S)) (position : ℕ) where
    body_of-Carries :
        (inline referenced : Option Bytes) (s : S) (body : Bytes)
        → (body_of c store position inline referenced s).1 ≡ good body
        → Carries c inline referenced body
    body_of-Carries (some text) none s body h =
        let (canonical, low) = short_inline_good (c.json.canonical.canonicalize text) body h in
        short text refl refl canonical low
    body_of-Carries none (some text) s body h =
        let (t, ref, parsed, later) =
          resume_good (s, wrap_at position (parse_ref c.json item_inline_limit text)) _ h in
        named text ref refl refl (wrap_at_good position _ ref (ap (λ m. m.1) parsed))
          (resolve-Names c.json store ref t body later)
    body_of-Carries none none s body h = absurd (ground arith)
    body_of-Carries (some inline) (some text) s body h = absurd (ground arith)

    pub inline_or_referenced-Carries :
        (inline referenced : Option Bytes) (s : S) (body : Bytes)
        → (inline_or_referenced c store position inline referenced s).1 ≡ good body
        → Carries c inline referenced body
    unfolding inline_or_referenced
    inline_or_referenced-Carries inline referenced s body h =
        body_of-Carries inline referenced s body h

    pub item_value-Carries :
        (inline referenced : Option Bytes) (s : S) (body : Bytes)
        → (item_value c store position inline referenced s).1 ≡ good body
        → Carries c inline referenced body
    unfolding item_value
    item_value-Carries inline referenced s body h = elim (Bool-cases (same_set inline referenced)) [
      | inl both ↦ absurd (ground arith)
      | inr one ↦ inline_or_referenced-Carries inline referenced s body (ground arith)
    ]
