-- ===== src/Params/Merge.antt =====
-- internal/valueparam/valueparam.go, DecodeMerge. The sum of the sizes is exact here: sizes in
-- references are at most 2 ^ 28, so 64 bits hold it for any list that a process can hold.
use massive.Base.{
  ℕ, ◌+◌, Bytes, List, [], ◌∷◌, ◌++◌, ltb, Option, none, some, if◌then◌else◌, length,
}
use massive.Base.Results.{Result, good, bad, Stateful, ◌>>=◌, give, throw, pure}
use massive.Store.Contract.{Datastore}
use massive.Params.Codec.{
  Ref, ParamError, contract, merge_too_long, at_position, Json, inline_limit, max_value_bytes,
  referenced, parse_ref, decode,
}

-- fmt.Errorf("merge input %d: %w", index, err)
abbrev pub wrap_at {ℓ} : {A : Type ℓ} → ℕ → Result ParamError A → Result ParamError A
wrap_at index (good a) = good a
wrap_at index (bad e) = bad (at_position index e)

abbrev pub stateful_at : {S A : Type 0} → ℕ → S × Result ParamError A → S × Result ParamError A
stateful_at index (s, r) = (s, wrap_at index r)

-- bytes.Join(bodies, ",")
unfoldable pub join_comma : List Bytes → Bytes
join_comma [] = []
join_comma (b ∷ []) = b
join_comma (b ∷ c ∷ rest) = b ++ b',' ∷ join_comma (c ∷ rest)

unfoldable pub json_array : List Bytes → Bytes
json_array bodies = b'[' ∷ (join_comma bodies ++ b']' ∷ [])

module _ (j : Json) where
  abbrev pub size_of : Result ParamError Ref → Result ParamError ℕ
  size_of (good ref) = good ref.size
  size_of (bad e) = bad e

  abbrev pub size_as : Bytes → Option Bytes → Result ParamError ℕ
  size_as text none = good (length text)
  size_as text (some rest) = size_of (parse_ref j inline_limit rest)

  -- the length of the body that a parameter stands for, without reading it
  unfoldable pub declared_size : Bytes → Result ParamError ℕ
  declared_size text = size_as text (referenced text)

  abbrev pub add_size : ℕ → Result ParamError ℕ → Result ParamError ℕ
  add_size size (good total) = good (size + total)
  add_size size (bad e) = bad e

  abbrev pub then_add : Result ParamError ℕ → Result ParamError ℕ → Result ParamError ℕ
  then_add (good size) later = add_size size later
  then_add (bad e) later = bad e

  unfoldable pub sum_sizes : ℕ → List Bytes → Result ParamError ℕ
  sum_sizes index [] = good 0
  sum_sizes index (text ∷ rest) =
      then_add (wrap_at index (declared_size text)) (sum_sizes (index + 1) rest)

  module _ {S : Type 0} (store : Option (Datastore S)) where
    unfoldable pub decode_all : ℕ → List Bytes → Stateful S ParamError (List Bytes)
    decode_all index [] = give []
    decode_all index (text ∷ rest) = do
      value ← (λ s. stateful_at index (decode j store text s))
      bodies ← decode_all (index + 1) rest
      give (value.body ∷ bodies)

    -- `total > MaxValueBytes`, or the array
    unfoldable pub merge_checked : List Bytes → ℕ → Stateful S ParamError Bytes
    merge_checked texts size =
        if ltb max_value_bytes (length texts + 1 + size)
        then throw (contract (merge_too_long (length texts + 1 + size)))
        else (do bodies ← decode_all 0 texts; give (json_array bodies))

    unfoldable pub decode_merge : List Bytes → Stateful S ParamError Bytes
    decode_merge texts = do size ← pure (sum_sizes 0 texts); merge_checked texts size
