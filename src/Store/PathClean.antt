-- ===== src/Store/PathClean.antt =====
-- strings.Split at a slash and path.Clean of Go's standard library.
use massive.Base.{
  ℕ, Bytes, List, [], ◌∷◌, ◌++◌, ◌≡◌, refl, ap, Bool, true, false, ◌||◌, ◌==◌, bytes_equal,
  if◌then◌else◌, arith,
}

-- a byte before the first element
unfoldable pub push_first : ℕ → List Bytes → List Bytes
push_first c [] = (c ∷ []) ∷ []
push_first c (s ∷ rest) = (c ∷ s) ∷ rest

-- strings.Split(value, "/")
unfoldable pub split_slash : Bytes → List Bytes
unfolding push_first
split_slash [] = [] ∷ []
split_slash (c ∷ s) = let rest = split_slash s in if c == b'/' then [] ∷ rest else push_first c rest

-- strings.Join(segments, "/")
unfoldable pub join_slash : List Bytes → Bytes
join_slash [] = []
join_slash (s ∷ []) = s
join_slash (s ∷ t ∷ rest) = s ++ b'/' ∷ join_slash (t ∷ rest)

-- ""
abbrev pub is_empty : Bytes → Bool
is_empty [] = true
is_empty (c ∷ s) = false

-- the segments that path.Clean drops
abbrev pub is_dot : Bytes → Bool
is_dot s = bytes_equal s (b'.' ∷ [])

abbrev pub is_dots : Bytes → Bool
is_dots s = bytes_equal s (b'.' ∷ b'.' ∷ [])

-- "..": the segment before goes, or in a relative path without one it stays
abbrev pub back_up : Bool → List Bytes → List Bytes
back_up rooted [] = if rooted then [] else (b'.' ∷ b'.' ∷ []) ∷ []
back_up rooted (s ∷ done) = if is_dots s then (b'.' ∷ b'.' ∷ []) ∷ s ∷ done else done

-- the segments that stay, the last one first
unfoldable pub clean_segments : Bool → List Bytes → List Bytes → List Bytes
clean_segments rooted done [] = done
clean_segments rooted done (s ∷ rest) =
    clean_segments rooted
      (if is_empty s || is_dot s then done else if is_dots s then back_up rooted done else s ∷ done)
      rest

abbrev pub reverse_onto : List Bytes → List Bytes → List Bytes
reverse_onto [] out = out
reverse_onto (s ∷ rest) out = reverse_onto rest (s ∷ out)

abbrev pub is_rooted : Bytes → Bool
is_rooted [] = false
is_rooted (c ∷ s) = c == b'/'

abbrev pub or_dot : Bytes → Bytes
or_dot [] = b'.' ∷ []
or_dot (c ∷ s) = c ∷ s

-- path.Clean
unfoldable pub path_clean : Bytes → Bytes
path_clean value =
    let rooted = is_rooted value in
    let kept = join_slash (reverse_onto (clean_segments rooted [] (split_slash value)) []) in
    if rooted then b'/' ∷ kept else or_dot kept

-- A split is never empty, so a byte before it is in its first element.
pub join-push_first :
    (c : ℕ) (segments : List Bytes) → join_slash (push_first c segments) ≡ c ∷ join_slash segments
unfolding push_first join_slash
join-push_first c [] = refl
join-push_first c (s ∷ []) = refl
join-push_first c (s ∷ t ∷ rest) = refl

join-slash_first :
    (t : Bytes) (rest : List Bytes) → join_slash ([] ∷ t ∷ rest) ≡ b'/' ∷ join_slash (t ∷ rest)
unfolding join_slash
join-slash_first t rest = refl

split-not_nil : (s : Bytes) → (t : Bytes) × (rest : List Bytes) × (split_slash s ≡ t ∷ rest)
unfolding split_slash push_first
split-not_nil [] = ([], [], refl)
split-not_nil (c ∷ s) =
    let (t, rest, e) = split-not_nil s in
    elim (c == b'/')
      as (λ b.
        (u : Bytes) × (more : List Bytes) × ((if b
            then [] ∷ split_slash s
            else push_first c (split_slash s))
          ≡ u ∷ more)) [
            | true ↦ ([], split_slash s, refl)
            | false ↦ (c ∷ t, rest, ap (push_first c) e)
          ]

-- Joining what was split gives the text back.
pub join-split : (s : Bytes) → join_slash (split_slash s) ≡ s
unfolding split_slash join_slash push_first
join-split [] = refl
join-split (c ∷ s) =
    let (t, rest, e) = split-not_nil s in
    let ih : join_slash (split_slash s) ≡ s = join-split s in
    ground (arith, join-push_first c (split_slash s), join-slash_first t rest)
