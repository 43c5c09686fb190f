-- ===== src/Params/Settled.antt =====
-- internal/valueparam/valueparam.go, CollectOutcomes: the outcome of one envelope.
use mathlib.Core.Path.{subst}
use massive.Base.{
  ℕ, ◌≤◌, Bytes, Bool-cases, false, ◌||◌, ◌==◌, Option, Option-cases, none, some, pos, Dict, lookup,
  ◌≡◌, inl, inr, sym, refl, true, ap, ◌∙◌, arith,
}
use massive.Base.Results.{good, or_bad, resume, resume_good, give}
use massive.MapExec.Failure.{Failure}
use massive.MapExec.Collect.{Outcome, is_canonical}
use massive.Store.Contract.{Datastore}
use massive.Params.Codec.{contract, bad_failure}
use massive.Params.Envelope.{Envelope, EnvelopeJson, is_set, is_lost, index_of}
use massive.Params.Carried.{
  Carries, is_set-none, index_of-pos, inline_or_referenced-Carries, item_value-Carries,
}
use massive.Params.CollectItems.{
  within, parse_failure, validated, evidence, failed_outcome, value_outcome, indexed_outcome,
  at_own_index, outcome_of, inline_or_referenced, item_value,
}

-- the outcome of an envelope at a position: the value that it carries, the failure that it
-- carries, or the failure that is known of a lost item, each failure within the budget of attempts
pub data Settled (c : EnvelopeJson) (n : ℕ) (missing : Dict Failure) (position : ℕ)
    (fields : Envelope) (outcome : Outcome) : Type 0 where
  succeeded :
      (body : Bytes)
      → is_lost fields ≡ false
      → fields.index ≡ some (pos position)
      → fields.failure ≡ none
      → fields.failure_ref ≡ none
      → Carries c fields.value fields.ref body
      → outcome ≡ record { index = pos position; value = some body; failure = none }
      → Settled c n missing position fields outcome
  failed_within :
      (body : Bytes) (failure : Failure)
      → is_lost fields ≡ false
      → fields.index ≡ some (pos position)
      → Carries c fields.failure fields.failure_ref body
      → c.read_failure body ≡ some failure
      → outcome ≡ record { index = pos position; value = none; failure = some failure }
      → 1 ≤ failure.attempts
      → failure.attempts ≤ n
      → Settled c n missing position fields outcome
  lost_within :
      (known : Failure) (body : Bytes) (failure : Failure)
      → is_lost fields ≡ true
      → lookup fields.lost missing ≡ some known
      → c.failure_text known ≡ some body
      → c.read_failure body ≡ some failure
      → outcome ≡ record { index = pos position; value = none; failure = some failure }
      → 1 ≤ failure.attempts
      → failure.attempts ≤ n
      → Settled c n missing position fields outcome

module _ (c : EnvelopeJson) where
  -- a failure that was read from its text, within the budget
  record IsRead (n : ℕ) (body : Bytes) (failure : Failure) : Type 0 where
    read : c.read_failure body ≡ some failure
    low : 1 ≤ failure.attempts
    high : failure.attempts ≤ n

  within_budget :
      (n : ℕ) (o : Option Failure) (f : Failure)
      → within c n o ≡ some f
      → (o ≡ some f) × (1 ≤ f.attempts) × (f.attempts ≤ n)
  within_budget n none f h = cc
  within_budget n (some g) f h =
      let same : g ≡ f = ground arith in
      subst (λ (x : Failure). (some g ≡ some x) × (1 ≤ x.attempts) × (x.attempts ≤ n)) same
        (refl, ground arith, ground arith)

  parse_failure-IsRead :
      (n : ℕ) (body : Bytes) (f : Failure)
      → or_bad (contract bad_failure) (parse_failure c n body) ≡ good f
      → IsRead n body f
  unfolding parse_failure
  parse_failure-IsRead n body f h = elim (Bool-cases (is_canonical c.json.canonical body)) [
    | inr other ↦ absurd (ground arith)
    | inl fine ↦ elim (Option-cases (within c n (c.read_failure body))) [
      | inl e ↦ absurd (ground arith)
      | inr (g, e) ↦
          let same : g ≡ f = ground arith in
          let (read, low, high) = within_budget n (c.read_failure body) f (e ∙ ap some same) in
          record { read = read; low = low; high = high }
    ]
  ]

  module _ {S : Type 0} (store : Option (Datastore S)) (n : ℕ) (missing : Dict Failure) where
    evidence-IsRead :
        (o : Option Failure) (f : Failure)
        → evidence c store n missing o ≡ good f
        → (known : Failure) × (body : Bytes) × (o ≡ some known)
          × (c.failure_text known ≡ some body)
          × IsRead n body f
    evidence-IsRead none f h = cc
    evidence-IsRead (some g) f h = elim (Option-cases (c.failure_text g)) [
      | inl e ↦ absurd (ground arith)
      | inr (body, e) ↦ (
        g,
        body,
        refl,
        e,
        parse_failure-IsRead n body f (sym (ap (validated c store n missing) e) ∙ h),
      )
    ]

    indexed_outcome-Settled :
        (position : ℕ) (fields : Envelope) (s : S) (outcome : Outcome)
        → is_lost fields ≡ false
        → fields.index ≡ some (pos position)
        → (indexed_outcome c store n missing position fields s).1 ≡ good outcome
        → Settled c n missing position fields outcome
    unfolding indexed_outcome
    indexed_outcome-Settled position fields s outcome kept own h =
        elim (Bool-cases (is_set fields.failure || is_set fields.failure_ref)) [
          | inl failure_there ↦
              let first =
                inline_or_referenced c store position fields.failure fields.failure_ref s in
              let (t, body, carried, later) = resume_good first _ (rw failure_there at h) in
              let (u, failure, parsed, end) =
                resume_good (t, or_bad (contract bad_failure) (parse_failure c n body)) _ later in
              let is_read = parse_failure-IsRead n body failure (ap (λ m. m.1) parsed) in
              let built : failed_outcome c store n missing position failure ≡ outcome = cc end in
              failed_within body failure kept own
                (inline_or_referenced-Carries c store position fields.failure fields.failure_ref s
                  body (ap (λ m. m.1) carried))
                is_read.read (sym built) is_read.low is_read.high
          | inr none_there ↦
              let first = item_value c store position fields.value fields.ref s in
              let (t, body, carried, end) = resume_good first _ (rw none_there at h) in
              let built : value_outcome c store n missing position body ≡ outcome = cc end in
              succeeded body kept own (is_set-none fields.failure (ground arith))
                (is_set-none fields.failure_ref (ground arith))
                (item_value-Carries c store position fields.value fields.ref s body
                  (ap (λ m. m.1) carried))
                (sym built)
        ]

    at_own_index-Settled :
        (position : ℕ) (fields : Envelope) (index : ℕ) (s : S) (outcome : Outcome)
        → is_lost fields ≡ false
        → fields.index ≡ some (pos index)
        → (at_own_index c store n missing position fields index s).1 ≡ good outcome
        → Settled c n missing position fields outcome
    at_own_index-Settled position fields index s outcome kept at h =
        elim (Bool-cases (index == position)) [
          | inl own ↦
              let same : index ≡ position = ground arith in
              indexed_outcome-Settled position fields s outcome kept
                (at ∙ ap (λ i. some (pos i)) same) (ground arith)
          | inr other ↦ absurd (ground arith)
        ]

    pub outcome_of-Settled :
        (position : ℕ) (fields : Envelope) (s : S) (outcome : Outcome)
        → (outcome_of c store n missing position fields s).1 ≡ good outcome
        → (fields.fatal ≡ false) × Settled c n missing position fields outcome
    unfolding outcome_of
    outcome_of-Settled position fields s outcome h = elim (Bool-cases fields.fatal) [
      | inl fatal ↦ absurd (ground arith)
      | inr fine ↦ elim (Bool-cases (is_lost fields)) [
        | inl lost ↦
            let run : (resume (s, evidence c store n missing (lookup fields.lost missing))
                  (λ failure. give (failed_outcome c store n missing position failure))).1
                ≡ good outcome =
              ground arith in
            let (t, failure, found, end) =
              resume_good (s, evidence c store n missing (lookup fields.lost missing)) _ run in
            let (known, body, there, text, is_read) =
              evidence-IsRead _ failure (ap (λ m. m.1) found) in
            let built : failed_outcome c store n missing position failure ≡ outcome = cc end in
            (
              fine,
              lost_within known body failure lost there text is_read.read (sym built) is_read.low
                  is_read.high,
            )
        | inr kept ↦
            let run : (resume (s, index_of fields)
                  (λ index. at_own_index c store n missing position fields index)).1
                ≡ good outcome =
              ground arith in
            let (t, index, known, end) = resume_good (s, index_of fields) _ run in
            (
              fine,
              at_own_index-Settled position fields index t outcome kept
                  (index_of-pos fields index (ap (λ m. m.1) known)) end,
            )
      ]
    ]
