-- ===== src/MapExec/Complete.antt =====
-- internal/mapexec/values.go, `Collect`, on results for every source position.
use mathlib.Core.List.{Permᴰ, append-nil, append_assoc}
use massive.Base.{
  ℕ, zero, suc, ◌+◌, ◌<◌, ◌≡◌, refl, sym, ◌∙◌, ap, List, [], ◌∷◌, ◌++◌, Bool, true, false, arith,
  ◌==◌, pos, length, set, replicate, length-replicate, All,
}
use massive.MapExec.Collect.{
  Bytes, Canonical, Result, ok, unencodable, Slots, is_seen, is_canonical, place_all, collect_count,
  collect, or_error,
}
use massive.MapExec.Order.{put, Fits, cons-place_all, place_all-perm}

-- The results that give each source position, from `index` on, its body.
abbrev pub indexed : ℕ → List Bytes → List Result
indexed index [] = []
indexed index (body ∷ rest) = record { index = pos index; body = body } ∷ indexed (index + 1) rest

module _ {ℓ} {A : Type ℓ} where
  set_middle : (xs ys : List A) (a b : A) → set (xs ++ a ∷ ys) (length xs) b ≡ (xs ++ b ∷ []) ++ ys
  set_middle [] ys a b = refl
  set_middle (x ∷ xs) ys a b = ap (λ t. x ∷ t) (set_middle xs ys a b)

  length-Permᴰ : {xs ys : List A} → Permᴰ xs ys → length xs ≡ length ys
  length-Permᴰ Permᴰ.nil = refl
  length-Permᴰ (Permᴰ.cons e p) = ap suc (length-Permᴰ p)
  length-Permᴰ (Permᴰ.swap e e') = refl
  length-Permᴰ (Permᴰ.trans p q) = length-Permᴰ p ∙ length-Permᴰ q

length-indexed : (index : ℕ) (bodies : List Bytes) → length (indexed index bodies) ≡ length bodies
length-indexed index [] = refl
length-indexed index (body ∷ rest) = ap suc (length-indexed (index + 1) rest)

is_seen_middle : (n : ℕ) (bs : List Bool) → is_seen (replicate n true ++ false ∷ bs) n ≡ false
is_seen_middle zero bs = refl
is_seen_middle (suc n) bs = is_seen_middle n bs

set_seen :
    (n : ℕ) (bs : List Bool)
    → set (replicate n true ++ false ∷ bs) n true ≡ replicate (suc n) true ++ bs
set_seen zero bs = refl
set_seen (suc n) bs = ap (λ t. true ∷ t) (set_seen n bs)

length-snoc {ℓ} : {A : Type ℓ} (xs : List A) (x : A) → length (xs ++ x ∷ []) ≡ suc (length xs)
length-snoc [] x = refl
length-snoc (y ∷ xs) x = ap suc (length-snoc xs x)

-- the slots after the positions below `length done` have been filled
abbrev filled : List Bytes → ℕ → Slots
filled done left = record {
  ordered = done ++ replicate left [];
  seen = replicate (length done) true ++ replicate left false;
}

module _ (c : Canonical) (count : ℕ) where
  put-filled :
      (done : List Bytes) (left : ℕ) (body : Bytes)
      → put (filled done (suc left)) (length done) body ≡ filled (done ++ body ∷ []) left
  put-filled done left body = cc (
    set_middle done (replicate left []) [] body,
    set_seen (length done) (replicate left false),
    length-snoc done body,
  )

  Fits-next :
      (done : List Bytes) (left : ℕ) (body : Bytes)
      → length done < count
      → is_canonical c body ≡ true
      → Fits c count
          (filled done (suc left))
          (record { index = pos (length done); body = body })
          (filled (done ++ body ∷ []) left)
  Fits-next done left body h canonical = record {
    at = length done;
    index = ground arith;
    free = is_seen_middle (length done) (replicate left false);
    canonical = canonical;
    stored = sym (put-filled done left body);
  }

  place_all-indexed :
      (done rest : List Bytes)
      → length done + length rest ≡ count
      → All (λ body. is_canonical c body ≡ true) rest
      → place_all c count (filled done (length rest)) (indexed (length done) rest)
        ≡ ok (filled (done ++ rest) 0)
  unfolding place_all
  place_all-indexed done [] h all = cc (append-nil done)
  place_all-indexed done (body ∷ rest) h all =
      let more : length (done ++ body ∷ []) + length rest ≡ count =
        omega (arith, length-snoc done body) in
      let start : length (done ++ body ∷ []) ≡ length done + 1 =
        omega (arith, length-snoc done body) in
      let step =
        cons-place_all c count (filled done (suc (length rest)))
          (filled (done ++ body ∷ []) (length rest))
          (record { index = pos (length done); body = body }) (indexed (length done + 1) rest)
          (Fits-next done (length rest) body (omega arith) all.0) in
      let later = place_all-indexed (done ++ body ∷ []) rest more all.1 in
      step ∙ rw (← start) (later ∙ rw (append_assoc done (body ∷ []) rest))

==_refl : (n : ℕ) → (n == n) ≡ true
==_refl n = ground arith

-- Results that are, in any order, one canonical body for each index below the expected count are
-- collected into the encoding of the bodies in source order.
pub collect_complete :
    (c : Canonical) (bodies : List Bytes) {results : List Result}
    → All (λ body. is_canonical c body ≡ true) bodies
    → Permᴰ (indexed 0 bodies) results
    → collect c (pos (length bodies)) results ≡ or_error unencodable (c.marshal bodies)
unfolding collect collect_count
collect_complete c bodies {results} all p =
    let n = length bodies in
    let count : length results ≡ n = sym (length-Permᴰ p) ∙ length-indexed 0 bodies in
    let placed =
      place_all-perm c n p (filled [] n) (filled bodies 0) (length-replicate n false)
        (place_all-indexed c n [] bodies (omega arith) all) in
    rw (count, ==_refl n, placed, append-nil)
