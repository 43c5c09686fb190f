-- ===== src/Base/Times.antt =====
-- How often a text stands in a list.
use Prim.Native.Nat.{ℕ, suc, ◌+◌, ◌≤◌}
use Prim.Native.String.{String}
use mathlib.Core.Path.{◌≡◌, refl}
use mathlib.Core.List.{List, [], ◌∷◌, ◌++◌}
use native.Mathlib.Omega.{arith}
use massive.Base.Tests.{◌=ₛ◌, =ₛ_iff, if◌then◌else◌}
use massive.Base.Lists.{length}

-- 1 if the texts are equal
unfoldable pub same_text : String → String → ℕ
same_text a b = if a =ₛ b then 1 else 0

abbrev pub times : String → List String → ℕ
times v [] = 0
times v (x ∷ xs) = same_text x v + times v xs

pub same_text_self : (a : String) → same_text a a ≡ 1
unfolding same_text
same_text_self a = ground (arith, =ₛ_iff a a)

pub times-append : (v : String) (xs ys : List String) → times v (xs ++ ys) ≡ times v xs + times v ys
times-append v [] ys = omega arith
times-append v (x ∷ xs) ys = omega (arith, times-append v xs ys)

remove : String → List String → List String
remove v [] = []
remove v (x ∷ xs) = if x =ₛ v then xs else x ∷ remove v xs

times-remove :
    (v w : String) (xs : List String)
    → 1 ≤ times v xs
    → times w (remove v xs) + same_text v w ≡ times w xs
unfolding remove same_text
times-remove v w [] h = absurd (omega arith)
times-remove v w (x ∷ xs) h = ground (arith, =ₛ_iff x v, times-remove v w xs)

length-remove :
    (v : String) (xs : List String) → 1 ≤ times v xs → suc (length (remove v xs)) ≡ length xs
unfolding remove same_text
length-remove v [] h = absurd (omega arith)
length-remove v (x ∷ xs) h = ground (arith, length-remove v xs)

first_present :
    (x : String) (xs ys : List String)
    → ((v : String) → times v (x ∷ xs) ≤ times v ys)
    → 1 ≤ times x ys
first_present x xs ys h = omega (arith, h x, same_text_self x)

rest_fits :
    (x : String) (xs ys : List String)
    → ((v : String) → times v (x ∷ xs) ≤ times v ys)
    → (v : String) → times v xs ≤ times v (remove x ys)
rest_fits x xs ys h v = omega (arith, h v, times-remove x v ys (first_present x xs ys h))

-- A list whose counts are bounded by another's is not longer.
pub length-le_of_times :
    (xs ys : List String) → ((v : String) → times v xs ≤ times v ys) → length xs ≤ length ys
length-le_of_times [] ys h = omega arith
length-le_of_times (x ∷ xs) ys h = omega (
  arith,
  length-remove x ys (first_present x xs ys h),
  length-le_of_times xs (remove x ys) (rest_fits x xs ys h),
)

-- If it is as long, the counts are the same.
pub times-eq_of_length :
    (xs ys : List String)
    → ((v : String) → times v xs ≤ times v ys)
    → length xs ≡ length ys
    → (v : String) → times v xs ≡ times v ys
times-eq_of_length [] [] h e v = refl
times-eq_of_length [] (y ∷ ys) h e v = absurd (omega arith)
times-eq_of_length (x ∷ xs) ys h e v = omega (
  arith,
  length-remove x ys (first_present x xs ys h),
  times-remove x v ys (first_present x xs ys h),
  times-eq_of_length xs (remove x ys) (rest_fits x xs ys h)
      (omega (arith, length-remove x ys (first_present x xs ys h))) v,
)
