-- ===== src/MapExec/Tests.antt =====
-- Three items that arrive out of order.
use mathlib.Core.List.{Permᴰ, Memᴰ}
use massive.Base.{
  ℕ, ◌<◌, ◌≡◌, refl, some, none, pos, List, [], ◌∷◌, ◌++◌, length, get_elem?, true, All,
}
use massive.MapExec.Collect.{
  Bytes, Canonical, Result, ok, collect, collect_count, place_all, place_result, place,
  is_canonical, or_error, unencodable,
}
use massive.MapExec.Complete.{collect_complete}
use massive.MapExec.Sound.{collect_sound}

-- text without white space is canonical
abbrev join : List Bytes → Bytes
join [] = b']' ∷ []
join (x ∷ xs) = x ++ b',' ∷ join xs

abbrev encoder : Canonical
encoder = record {
  canonicalize = λ b. some b;
  elements = λ b. none;
  marshal = λ bs. some (b'[' ∷ join bs);
  marshal_value = λ b. some b;
  marshal_failure = λ f. some (b'0' ∷ []);
}

abbrev bodies : List Bytes
bodies = (b'1' ∷ []) ∷ (b'2' ∷ []) ∷ (b'3' ∷ []) ∷ []

abbrev arrived : List Result
arrived =
    record { index = pos 1; body = b'2' ∷ [] }
    ∷ record { index = pos 0; body = b'1' ∷ [] }
    ∷ record { index = pos 2; body = b'3' ∷ [] }
    ∷ []

bodies_canonical : All (λ body. is_canonical encoder body ≡ true) bodies
unfolding is_canonical
bodies_canonical = (refl, (refl, (refl, tt)))

collect_complete_example :
    collect encoder (pos 3) arrived ≡ or_error unencodable (some (b'[' ∷ join bodies))
collect_complete_example = collect_complete encoder bodies bodies_canonical (Permᴰ.swap refl refl)

collected : collect encoder (pos 3) arrived ≡ ok (b'[' ∷ join bodies)
unfolding collect collect_count place_all place_result place is_canonical
collected = refl

collect_sound_example :
    (length arrived ≡ 3)
    × ((bs : List Bytes) × (length bs ≡ 3)
        × (encoder.marshal bs ≡ some (b'[' ∷ join bodies))
        × ((i : ℕ)
            → i < 3
            → (body : Bytes) × Memᴰ (record { index = pos i; body = body }) arrived
              × (get_elem? bs i ≡ some body)
              × (is_canonical encoder body ≡ true)))
collect_sound_example = collect_sound encoder 3 arrived (b'[' ∷ join bodies) collected
