-- ===== src/MapExec/Sound.antt =====
-- internal/mapexec/values.go, `Collect`, where it succeeds.
use mathlib.Core.List.{Memᴰ}
use mathlib.Core.Path.{subst}
use massive.Base.{
  ℕ, zero, suc, ◌+◌, ◌<◌, ◌≡◌, ◌⊎◌, inl, inr, refl, sym, ◌∙◌, ap, if◌then◌else◌, some, List, [],
  ◌∷◌, Bool, Bool-cases, true, false, arith, ◌==◌, pos, length, set, get_elem?, replicate,
  length-replicate,
}
use massive.MapExec.Collect.{
  Bytes, Canonical, Result, ok, unencodable, Slots, is_seen, is_canonical, place_all, collect_count,
  collect, ◌>>=◌, both_ok, or_error, or_error_ok,
}
use massive.MapExec.Order.{
  Fits, place_all-cons, dense_index-lt, is_seen-set_ne, length-place_result,
}

-- how many positions are free
abbrev pub free_slots : List Bool → ℕ
free_slots [] = 0
free_slots (taken ∷ rest) = (if taken then 0 else 1) + free_slots rest

free_slots-set :
    (seen : List Bool) (i : ℕ)
    → is_seen seen i ≡ false
    → i < length seen
    → suc (free_slots (set seen i true)) ≡ free_slots seen
free_slots-set [] i e h = elim h [ ]
free_slots-set (taken ∷ rest) zero e h = rw e (omega arith)
free_slots-set (taken ∷ rest) (suc i) e h = omega (arith, free_slots-set rest i e (omega arith))

none_free :
    (seen : List Bool) (i : ℕ) → i < length seen → free_slots seen ≡ 0 → is_seen seen i ≡ true
none_free [] i h e = elim h [ ]
none_free (taken ∷ rest) zero h e = ground arith
none_free (taken ∷ rest) (suc i) h e = none_free rest i (omega arith) (omega arith)

free_slots-replicate : (n : ℕ) → free_slots (replicate n false) ≡ n
free_slots-replicate zero = refl
free_slots-replicate (suc n) = omega (arith, free_slots-replicate n)

get_elem?-set_self {ℓ} :
    {A : Type ℓ} (xs : List A) (i : ℕ) (v : A) → i < length xs → get_elem? (set xs i v) i ≡ some v
get_elem?-set_self [] i v h = elim h [ ]
get_elem?-set_self (x ∷ xs) zero v h = refl
get_elem?-set_self (x ∷ xs) (suc i) v h = get_elem?-set_self xs i v (omega arith)

get_elem?-set_ne {ℓ} :
    {A : Type ℓ} (xs : List A) (i j : ℕ) (v : A)
    → (i == j) ≡ false
    → get_elem? (set xs i v) j ≡ get_elem? xs j
get_elem?-set_ne [] i j v h = refl
get_elem?-set_ne (x ∷ xs) zero zero v h = absurd (ground arith)
get_elem?-set_ne (x ∷ xs) zero (suc j) v h = refl
get_elem?-set_ne (x ∷ xs) (suc i) zero v h = refl
get_elem?-set_ne (x ∷ xs) (suc i) (suc j) v h = get_elem?-set_ne xs i j v (ground arith)

module _ (c : Canonical) (count : ℕ) where
  record HasSize (s : Slots) : Type 0 where
    seen : length s.seen ≡ count
    ordered : length s.ordered ≡ count

  HasSize-Fits : (s t : Slots) (r : Result) → HasSize s → Fits c count s r t → HasSize t
  HasSize-Fits s t r h f = ground (arith, length-place_result c count s t r f)

  -- where the body at a position comes from
  abbrev Placed : List Result → Slots → ℕ → Type 0
  Placed results u i =
      (body : Bytes) × Memᴰ (record { index = pos i; body = body }) results
      × (get_elem? u.ordered i ≡ some body)
      × (is_canonical c body ≡ true)

  free_slots-place_all :
      (results : List Result) (s u : Slots)
      → HasSize s
      → place_all c count s results ≡ ok u
      → HasSize u × (free_slots u.seen + length results ≡ free_slots s.seen)
  unfolding place_all
  free_slots-place_all [] s u n h =
      let e : s ≡ u = cc in
      (
        subst HasSize e n,
        subst (λ (x : Slots). free_slots x.seen + 0 ≡ free_slots s.seen) e (omega arith),
      )
  free_slots-place_all (r ∷ rest) s u n h =
      let (t, f, later) = place_all-cons c count s u r rest h in
      let (n', left) = free_slots-place_all rest t u (HasSize-Fits s t r n f) later in
      let (small, _) = dense_index-lt c count r.index f.at f.index in
      let fall : suc (free_slots t.seen) ≡ free_slots s.seen =
        subst (λ (x : Slots). suc (free_slots x.seen) ≡ free_slots s.seen) (sym f.stored)
          (free_slots-set s.seen f.at f.free (omega arith)) in
      (n', omega arith)

  from_here :
      {rest : List Result} (s u : Slots) (r : Result) (t : Slots) (i : ℕ)
      → HasSize s
      → (f : Fits c count s r t) → f.at ≡ i
      → get_elem? u.ordered i ≡ get_elem? t.ordered i
      → Placed (r ∷ rest) u i
  from_here {rest} s u r t i n f here e =
      let (small, index) = dense_index-lt c count r.index f.at f.index in
      let whole : record { index = pos i; body = r.body } ≡ r =
        ap (λ z. record { index = z; body = r.body }) (sym (index ∙ ap pos here)) in
      let stored : get_elem? t.ordered i ≡ some r.body =
        subst (λ (x : Slots). get_elem? x.ordered i ≡ some r.body) (sym f.stored)
          (rw (← here) (get_elem?-set_self s.ordered f.at r.body (omega arith))) in
      (r.body, Memᴰ.head whole, e ∙ stored, f.canonical)

  from_other :
      (s u : Slots) (r : Result) (t : Slots) (i : ℕ)
      → HasSize s
      → (f : Fits c count s r t) → (f.at == i) ≡ false
      → is_seen t.seen i ≡ true
      → get_elem? u.ordered i ≡ get_elem? t.ordered i
      → (is_seen s.seen i ≡ true) × (get_elem? u.ordered i ≡ get_elem? s.ordered i)
  from_other s u r t i n f other old e =
      let seen = is_seen-set_ne s.seen f.at i (λ p. ground arith) in
      let body = get_elem?-set_ne s.ordered f.at i r.body other in
      (
        sym seen ∙ subst (λ (x : Slots). is_seen x.seen i ≡ true) f.stored old,
        e
            ∙ subst (λ (x : Slots). get_elem? x.ordered i ≡ get_elem? s.ordered i) (sym f.stored)
                body,
      )

  placed :
      (results : List Result) (s u : Slots) (i : ℕ)
      → HasSize s
      → place_all c count s results ≡ ok u
      → is_seen u.seen i ≡ true
      → (is_seen s.seen i ≡ true) × (get_elem? u.ordered i ≡ get_elem? s.ordered i)
        ⊎ Placed results u i
  unfolding place_all
  placed [] s u i n h seen =
      let e : u ≡ s = cc in
      inl (
        subst (λ (x : Slots). is_seen x.seen i ≡ true) e seen,
        ap (λ (x : Slots). get_elem? x.ordered i) e,
      )
  placed (r ∷ rest) s u i n h seen =
      let (t, f, later) = place_all-cons c count s u r rest h in
      elim (placed rest t u i (HasSize-Fits s t r n f) later seen) [
        | inr (body, m, e, k) ↦ inr (body, Memᴰ.tail m, e, k)
        | inl (old, e) ↦ elim (Bool-cases (f.at == i)) [
          | inl here ↦ inr (from_here s u r t i n f (ground arith) e)
          | inr other ↦ inl (from_other s u r t i n f other old e)
        ]
      ]

  -- Every position has a result, once as many results as positions have been placed.
  all-Placed :
      (results : List Result) (s u : Slots) (i : ℕ)
      → HasSize s
      → free_slots s.seen ≡ count
      → ((j : ℕ) → is_seen s.seen j ≡ false)
      → length results ≡ count
      → place_all c count s results ≡ ok u
      → i < count
      → Placed results u i
  all-Placed results s u i n free blank l h small =
      let (n', left) = free_slots-place_all results s u n h in
      let seen = none_free u.seen i (omega arith) (omega arith) in
      elim (placed results s u i n h seen) [
        | inl (old, _) ↦ absurd (ground (arith, blank i))
        | inr p ↦ p
      ]

blank_slots : (n i : ℕ) → is_seen (replicate n false) i ≡ false
blank_slots zero i = refl
blank_slots (suc n) zero = refl
blank_slots (suc n) (suc i) = blank_slots n i

abbrev blank : ℕ → Slots
blank count = record { ordered = replicate count []; seen = replicate count false }

counted_ok :
    (c : Canonical) (count : ℕ) (results : List Result) (out : Bytes)
    → collect c (pos count) results ≡ ok out
    → (place_all c count (blank count) results >>= λ s. or_error unencodable (c.marshal s.ordered))
      ≡ ok out
unfolding collect collect_count
counted_ok c count results out h = ground arith

-- Where a collection with an expected count succeeds, there were as many results as expected,
-- and the output encodes a list that has at each index the canonical body of a result with that
-- index.
pub collect_sound :
    (c : Canonical) (count : ℕ) (results : List Result) (out : Bytes)
    → collect c (pos count) results ≡ ok out
    → (length results ≡ count)
      × ((bodies : List Bytes) × (length bodies ≡ count)
          × (c.marshal bodies ≡ some out)
          × ((i : ℕ)
              → i < count
              → (body : Bytes) × Memᴰ (record { index = pos i; body = body }) results
                × (get_elem? bodies i ≡ some body)
                × (is_canonical c body ≡ true)))
unfolding collect collect_count
collect_sound c count results out h =
    let (u, placed_ok, encoded) =
      both_ok (place_all c count (blank count) results) _
        (sym (counted_ok c count results out h)) in
    let n : length results ≡ count = ground arith in
    let size : HasSize c count (blank count) = record {
      seen = length-replicate count false;
      ordered = length-replicate count [];
    } in
    (
      n,
      (
        u.ordered,
        (free_slots-place_all c count results (blank count) u size placed_ok).0.ordered,
        or_error_ok unencodable _ (sym encoded),
        λ i small.
            all-Placed c count results (blank count) u i size (free_slots-replicate count)
              (blank_slots count) n placed_ok small,
      ),
    )
