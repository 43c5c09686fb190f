-- ===== src/Base/Maps.antt =====
-- Go's maps with string keys, as association lists with the keys in the order of their insertion.
-- A missing key reads as a given zero value.
use Prim.Native.String.{String}
use mathlib.Core.Path.{◌≡◌, refl}
use mathlib.Core.Option.{Option, none, some}
use mathlib.Core.List.{List, [], ◌∷◌}
use native.Mathlib.Omega.{arith}
use massive.Base.Tests.{◌=ₛ◌, =ₛ_iff, if◌then◌else◌}

abbrev pub Dict {ℓ} : Type ℓ → Type ℓ
Dict V = List (String × V)

module _ {ℓ} {V : Type ℓ} where
  -- `v, ok := m[k]`
  unfoldable pub lookup : String → Dict V → Option V
  lookup k [] = none
  lookup k ((j, v) ∷ m) = if j =ₛ k then some v else lookup k m

  -- `m[k]`
  unfoldable pub get_key : V → String → Dict V → V
  get_key zero_value k [] = zero_value
  get_key zero_value k ((j, v) ∷ m) = if j =ₛ k then v else get_key zero_value k m

  -- `m[k] = v`
  unfoldable pub insert : String → V → Dict V → Dict V
  insert k v [] = (k, v) ∷ []
  insert k v ((j, w) ∷ m) = if j =ₛ k then (k, v) ∷ m else (j, w) ∷ insert k v m

  pub get_key-insert :
      (z : V) (k j : String) (v : V) (m : Dict V)
      → get_key z j (insert k v m) ≡ (if k =ₛ j then v else get_key z j m)
  unfolding get_key insert
  get_key-insert z k j v [] = refl
  get_key-insert z k j v ((i, w) ∷ m) =
      ground (arith, =ₛ_iff k j, =ₛ_iff i k, =ₛ_iff i j, get_key-insert z k j v m)

  pub lookup-insert :
      (k j : String) (v : V) (m : Dict V)
      → lookup j (insert k v m) ≡ (if k =ₛ j then some v else lookup j m)
  unfolding lookup insert
  lookup-insert k j v [] = refl
  lookup-insert k j v ((i, w) ∷ m) =
      ground (arith, =ₛ_iff k j, =ₛ_iff i k, =ₛ_iff i j, lookup-insert k j v m)
