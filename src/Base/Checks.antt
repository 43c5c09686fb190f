-- ===== src/Base/Checks.antt =====
-- Go code that returns an `error`: `none` is nil. Checks run in order and the first error is returned.
use mathlib.Core.Path.{◌≡◌, refl}
use mathlib.Core.Logic.{◌↔◌}
use mathlib.Core.Bool.{Bool, true, false}
use mathlib.Core.Option.{Option, none, some}
use mathlib.Core.List.{List, [], ◌∷◌}
use native.Mathlib.Omega.{arith}
use massive.Base.Lists.{All}

module _ {ℓ} {E : Type ℓ} where
  -- `if test { return err }`
  abbrev pub fail_if : Bool → E → Option E
  fail_if true e = some e
  fail_if false e = none

  -- one statement after another
  infixr 6 ◌⨾◌
  abbrev pub ◌⨾◌ : Option E → Option E → Option E
  some e ⨾ d = some e
  none ⨾ d = d

  pub ⨾_passes : (c d : Option E) → ((c ⨾ d) ≡ none) ↔ ((c ≡ none) × (d ≡ none))
  ⨾_passes none d = (λ h. (refl, h), λ h. h.1)
  ⨾_passes (some e) d = (λ h. ground arith, λ h. ground (arith, h.0))

  pub fail_if_passes : (b : Bool) (e : E) → (fail_if b e ≡ none) ↔ (b ≡ false)
  fail_if_passes true e = (λ h. ground arith, λ h. ground arith)
  fail_if_passes false e = (λ h. refl, λ h. refl)

module _ {ℓ κ} {A : Type ℓ} {E : Type κ} where
  -- `for _, x := range xs { if err := f(x); err != nil { return err } }`
  unfoldable pub first_error : (A → Option E) → List A → Option E
  first_error f [] = none
  first_error f (x ∷ xs) = f x ⨾ first_error f xs

  pub first_error_passes :
      (f : A → Option E) (xs : List A) → (first_error f xs ≡ none) ↔ All (λ x. f x ≡ none) xs
  unfolding first_error
  first_error_passes f [] = (λ h. tt, λ h. refl)
  first_error_passes f (x ∷ xs) =
      let ih = first_error_passes f xs in
      let split = ⨾_passes (f x) (first_error f xs) in
      (λ h. ((split.0 h).0, ih.0 (split.0 h).1), λ h. split.1 (h.0, ih.1 h.1))
