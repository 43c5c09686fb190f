-- ===== src/Params/Outcomes.antt =====
-- internal/valueparam/valueparam.go, CollectOutcomes: one outcome for each item, at its position.
use mathlib.Core.Path.{subst}
use massive.Base.{
  ℕ, suc, ◌+◌, Bytes, codes, List, [], ◌∷◌, Bool-cases, false, ◌==◌, ltb, Option, pos, length, Dict,
  ◌≡◌, ◌⊎◌, inl, inr, ap, arith,
}
use massive.Base.Results.{good, resume, resume_good}
use massive.MapExec.Failure.{Failure}
use massive.MapExec.Collect.{Outcome, Returns, ok, err, collect_outcomes}
use massive.Store.Contract.{Datastore}
use massive.Params.Codec.{encode_published}
use massive.Params.Items.{from_map}
use massive.Params.ReadBack.{encode-encode_published}
use massive.Params.Envelope.{Envelope, EnvelopeJson, Aggregate, aggregate_envelopes}
use massive.Params.CollectItems.{
  outcome_of, outcomes_of, outcome_list, collect_aggregate, collect_item_outcomes,
}
use massive.Params.Settled.{Settled, outcome_of-Settled}

-- the outcomes of the envelopes, from a position on
abbrev pub AllSettled : EnvelopeJson → ℕ → Dict Failure → ℕ → List Envelope → List Outcome → Type 0
AllSettled c n missing position [] [] = Unit
AllSettled c n missing position (fields ∷ rest) (outcome ∷ outcomes) =
    (fields.fatal ≡ false)
    × Settled c n missing position fields outcome
    × AllSettled c n missing (suc position) rest outcomes
AllSettled c n missing position _ _ = ⊥

module _ (c : EnvelopeJson) where
  module _ {S : Type 0} (store : Option (Datastore S)) (n : ℕ) (missing : Dict Failure) where
    outcomes_of-AllSettled :
        (position : ℕ) (envelopes : List Envelope) (s : S) (outcomes : List Outcome)
        → (outcomes_of c store n missing position envelopes s).1 ≡ good outcomes
        → AllSettled c n missing position envelopes outcomes
    unfolding outcomes_of
    outcomes_of-AllSettled position [] s outcomes h =
        let e : [] ≡ outcomes = ground arith in subst (AllSettled c n missing position []) e tt
    outcomes_of-AllSettled position (fields ∷ rest) s outcomes h =
        let (t, outcome, first, later) =
          resume_good (outcome_of c store n missing position fields s) _ h in
        let (u, others, all, end) =
          resume_good (outcomes_of c store n missing (position + 1) rest t) _ later in
        let (fine, settled) =
          outcome_of-Settled c store n missing position fields s outcome (ap (λ m. m.1) first) in
        let next : position + 1 ≡ suc position = omega arith in
        let ih = outcomes_of-AllSettled (position + 1) rest t others (ap (λ m. m.1) all) in
        let e : outcome ∷ others ≡ outcomes = cc end in
        subst (AllSettled c n missing position (fields ∷ rest)) e
          (fine, settled, subst (λ k. AllSettled c n missing k rest others) next ih)

    -- what the collector returns for envelopes
    abbrev pub Collected : List Envelope → Bytes → Type 0
    Collected envelopes text =
        (outcomes : List Outcome) × AllSettled c n missing 0 envelopes outcomes
        × ((body : Bytes) × (collect_outcomes c.json.canonical (pos (length outcomes)) outcomes
              ≡ ok body)
            × (encode_published c.json body ≡ good text))

    from_map_ok : {A : Type 0} (r : Returns A) (a : A) → from_map r ≡ good a → r ≡ ok a
    from_map_ok (ok b) a h = cc
    from_map_ok (err e) a h = cc

    outcome_list-Collected :
        (envelopes : List Envelope) (s : S) (text : Bytes)
        → (outcome_list c store n missing envelopes s).1 ≡ good text
        → Collected envelopes text
    unfolding outcome_list
    outcome_list-Collected envelopes s text h =
        let (t, outcomes, all, later) =
          resume_good (outcomes_of c store n missing 0 envelopes s) _ h in
        let (u, body, collected, end) =
          resume_good
            (t, from_map (collect_outcomes c.json.canonical (pos (length outcomes)) outcomes)) _
            later in
        (
          outcomes,
          outcomes_of-AllSettled 0 envelopes s outcomes (ap (λ m. m.1) all),
          (
            body,
            from_map_ok _ body (ap (λ m. m.1) collected),
            encode-encode_published c.json store body text u end,
          ),
        )

    -- Where CollectOutcomes succeeds, its parameter is the empty list for an aggregate with one
    -- empty marker, and otherwise encodes what the collector of map values makes of one outcome
    -- for each envelope. No envelope is fatal, each that is not lost has its own position as its
    -- index, and its outcome is the canonical value or the failure that it carries inline or by
    -- a reference, or the failure known of a lost item, each failure with between one and the
    -- maximal number of attempts.
    pub collect_item_outcomes_sound :
        (aggregate : Bytes) (s : S) (text : Bytes)
        → (collect_item_outcomes c store n missing aggregate s).1 ≡ good text
        → (a : Aggregate) × (aggregate_envelopes c aggregate ≡ good a)
          × ((a.markers ≡ 1) × (text ≡ codes "[]") ⊎ Collected a.envelopes text)
    unfolding collect_item_outcomes collect_aggregate
    collect_item_outcomes_sound aggregate s text h = elim (Bool-cases (ltb n 1)) [
      | inl none_left ↦ absurd (ground arith)
      | inr positive ↦
          let run : (resume (s, aggregate_envelopes c aggregate)
                (λ a. collect_aggregate c store (outcome_list c store n missing) a)).1
              ≡ good text =
            ground arith in
          let (t, a, read, later) = resume_good (s, aggregate_envelopes c aggregate) _ run in
          (
            a,
            ap (λ m. m.1) read,
            elim (Bool-cases (a.markers == 1)) [
              | inl empty ↦ inl (ground arith, ground arith)
              | inr filled ↦ inr (outcome_list-Collected a.envelopes t text (ground arith))
            ],
          )
    ]
