-- ===== src/MapExec/Order.antt =====
-- internal/mapexec/values.go, `Collect`: the order in which the results arrive.
use massive.Base.{
  ℕ, zero, suc, ◌<◌, ◌≡◌, ◌≢◌, inl, inr, refl, sym, ◌∙◌, ap, Option-cases, some, List, [], ◌∷◌,
  Bool, true, false, arith, ℤ, pos, negsuc, length, set, length-set,
}
use mathlib.Core.Path.{subst}
use mathlib.Core.List.{Permᴰ}
use massive.MapExec.Collect.{
  Bytes, Canonical, Result, Returns, ok, err, Slots, dense_index, is_seen, is_canonical, place,
  place_result, place_all, ◌>>=◌,
}

set_comm {ℓ} :
    {A : Type ℓ} (xs : List A) (i j : ℕ) (a b : A)
    → i ≢ j
    → set (set xs i a) j b ≡ set (set xs j b) i a
set_comm [] i j a b h = refl
set_comm (x ∷ xs) zero zero a b h = absurd (h refl)
set_comm (x ∷ xs) zero (suc j) a b h = refl
set_comm (x ∷ xs) (suc i) zero a b h = refl
set_comm (x ∷ xs) (suc i) (suc j) a b h = ap (λ t. x ∷ t) (set_comm xs i j a b (λ e. h (ap suc e)))

is_seen-set : (bs : List Bool) (i : ℕ) → i < length bs → is_seen (set bs i true) i ≡ true
is_seen-set [] i h = elim h [ ]
is_seen-set (b ∷ bs) zero h = refl
is_seen-set (b ∷ bs) (suc i) h = is_seen-set bs i (omega arith)

pub is_seen-set_ne : (bs : List Bool) (i j : ℕ) → i ≢ j → is_seen (set bs i true) j ≡ is_seen bs j
is_seen-set_ne [] i j h = refl
is_seen-set_ne (b ∷ bs) zero zero h = absurd (h refl)
is_seen-set_ne (b ∷ bs) zero (suc j) h = refl
is_seen-set_ne (b ∷ bs) (suc i) zero h = refl
is_seen-set_ne (b ∷ bs) (suc i) (suc j) h = is_seen-set_ne bs i j (λ e. h (ap suc e))

-- the slots after one result has been stored
abbrev pub put : Slots → ℕ → Bytes → Slots
put s i body = record { ordered = set s.ordered i body; seen = set s.seen i true }

module _ (c : Canonical) (count : ℕ) where
  -- Why a result is stored: its index is in range and free, and its body is canonical.
  pub record Fits (s : Slots) (r : Result) (t : Slots) : Type 0 where
    pub at : ℕ
    pub index : dense_index count r.index ≡ some at
    pub free : is_seen s.seen at ≡ false
    pub canonical : is_canonical c r.body ≡ true
    pub stored : t ≡ put s at r.body

  pub dense_index-lt : (z : ℤ) (i : ℕ) → dense_index count z ≡ some i → (i < count) × (z ≡ pos i)
  dense_index-lt (pos n) i h = (ground arith, ground arith)
  dense_index-lt (negsuc n) i h = absurd (ground arith)

  pub place_result-Fits :
      (s : Slots) (r : Result) (t : Slots) → place_result c count s r ≡ ok t → Fits s r t
  unfolding place_result place
  place_result-Fits s r t h = elim (Option-cases (dense_index count r.index)) [
    | inl e ↦ absurd (ground arith)
    | inr (i, e) ↦ record {
      at = i;
      index = e;
      free = ground arith;
      canonical = ground arith;
      stored = ground arith;
    }
  ]

  pub Fits-place_result :
      (s : Slots) (r : Result) (t : Slots) → Fits s r t → place_result c count s r ≡ ok t
  unfolding place_result place
  Fits-place_result s r t f = ground arith

  pub length-place_result :
      (s t : Slots) (r : Result)
      → Fits s r t
      → (length t.seen ≡ length s.seen) × (length t.ordered ≡ length s.ordered)
  length-place_result s t r f =
      ground (arith, length-set s.seen f.at true, length-set s.ordered f.at r.body)

  -- The second of two stored results has another index.
  free_ne :
      (s : Slots) (i j : ℕ) (body : Bytes)
      → i < length s.seen
      → is_seen (put s i body).seen j ≡ false
      → i ≢ j
  free_ne s i j body h free e = ground (arith, is_seen-set s.seen i h)

  put_comm : (s : Slots) (i j : ℕ) (a b : Bytes) → i ≢ j → put (put s i a) j b ≡ put (put s j b) i a
  put_comm s i j a b h = cc (set_comm s.ordered i j a b h, set_comm s.seen i j true true h)

  -- Two results that are stored one after the other can be stored the other way round.
  swap_Fits :
      (s t u : Slots) (a b : Result)
      → length s.seen ≡ count
      → Fits s a t
      → Fits t b u
      → (s' : Slots) × Fits s b s' × Fits s' a u
  swap_Fits s t u a b n fa fb =
      let i = fa.at in
      let j = fb.at in
      let small : i < length s.seen = omega (arith, dense_index-lt a.index i fa.index) in
      let still_free : is_seen (put s i a.body).seen j ≡ false =
        subst (λ (x : Slots). is_seen x.seen j ≡ false) fa.stored fb.free in
      let ne = free_ne s i j a.body small still_free in
      (
        put s j b.body,
        record {
          at = j;
          index = fb.index;
          free = sym (is_seen-set_ne s.seen i j ne) ∙ still_free;
          canonical = fb.canonical;
          stored = refl;
        },
        record {
          at = i;
          index = fa.index;
          free = is_seen-set_ne s.seen j i (λ e. ne (sym e)) ∙ fa.free;
          canonical = fa.canonical;
          stored = fb.stored ∙ ap (λ x. put x j b.body) fa.stored ∙ put_comm s i j a.body b.body ne;
        },
      )

  pub place_all-cons :
      (s u : Slots) (r : Result) (rest : List Result)
      → place_all c count s (r ∷ rest) ≡ ok u
      → (t : Slots) × Fits s r t × (place_all c count t rest ≡ ok u)
  unfolding place_all
  place_all-cons s u r rest h = go (place_result c count s r) refl h
    where
      go :
          (x : Returns Slots)
          → place_result c count s r ≡ x
          → (x >>= λ s'. place_all c count s' rest) ≡ ok u
          → (t : Slots) × Fits s r t × (place_all c count t rest ≡ ok u)
      go (ok t) e h = (t, place_result-Fits s r t e, h)
      go (err x) e h = absurd (ground arith)

  pub cons-place_all :
      (s t : Slots) (r : Result) (rest : List Result)
      → Fits s r t
      → place_all c count s (r ∷ rest) ≡ place_all c count t rest
  unfolding place_all
  cons-place_all s t r rest f = rw (Fits-place_result s r t f)

  pub place_all-perm :
      {xs ys : List Result}
      → Permᴰ xs ys
      → (s u : Slots) → length s.seen ≡ count
      → place_all c count s xs ≡ ok u
      → place_all c count s ys ≡ ok u
  place_all-perm Permᴰ.nil s u n h = h
  place_all-perm (Permᴰ.cons {a = x} {b = y} {l₁ = xs} {l₂ = ys} e p) s u n h =
      let (t, f, later) = place_all-cons s u x xs h in
      subst (λ z. place_all c count s (z ∷ ys) ≡ ok u) e
        (cons-place_all s t x ys f
          ∙ place_all-perm p t u ((length-place_result s t x f).0 ∙ n) later)
  place_all-perm (Permᴰ.swap {a} {b} {l} e e') s u n h =
      let (t, fa, h') = place_all-cons s u a (b ∷ l) h in
      let (v, fb, later) = place_all-cons t u b l h' in
      let (t', fb', fa') = swap_Fits s t v a b n fa fb in
      rw (← e, ← e') (cons-place_all s t' b (a ∷ l) fb' ∙ cons-place_all t' v a l fa' ∙ later)
  place_all-perm (Permᴰ.trans p q) s u n h = place_all-perm q s u n (place_all-perm p s u n h)
