-- ===== src/Base/Results.antt =====
-- A value or an error, and code that changes a state on the way to one.
use mathlib.Core.Path.{◌≡◌, refl, ap, ◌∙◌}
use mathlib.Core.Bool.{Bool, true, false}
use mathlib.Core.Option.{Option, none, some}
use native.Mathlib.Omega.{arith}

pub data Result {ℓ κ} (E : Type ℓ) (A : Type κ) : Type (ℓ ⊔ κ) where
  good : A → Result E A
  bad : E → Result E A

-- code that may fail on a state that it reads and writes; the state stays also after an error
abbrev pub Stateful : Type 0 → Type 0 → Type 0 → Type 0
Stateful S E A = S → S × Result E A

module _ {S : Type 0} {E : Type 0} where
  abbrev pub resume : {A B : Type 0} → S × Result E A → (A → Stateful S E B) → S × Result E B
  resume (s, good a) later = later a s
  resume (s, bad e) later = (s, bad e)

  infixl 5 ◌>>=◌
  abbrev pub ◌>>=◌ : {A B : Type 0} → Stateful S E A → (A → Stateful S E B) → Stateful S E B
  ◌>>=◌ first later s = resume (first s) later

  -- what ran before a successful end
  pub resume_good :
      {A B : Type 0} {b : B} (first : S × Result E A) (later : A → Stateful S E B)
      → (resume first later).1 ≡ good b
      → (s : S) × (a : A) × (first ≡ (s, good a)) × ((later a s).1 ≡ good b)
  resume_good (s, good a) later h = (s, a, refl, h)
  resume_good (s, bad e) later h = cc

  -- after a successful first part
  pub resume-of_good :
      {A B : Type 0} {r : Result E B} (first : S × Result E A) (later : A → Stateful S E B) (a : A)
      → first.1 ≡ good a
      → (later a first.0).1 ≡ r
      → (resume first later).1 ≡ r
  resume-of_good (s, good b) later a h same =
      let e : b ≡ a = ground arith in ap (λ x. (later x s).1) e ∙ same
  resume-of_good (s, bad e) later a h same = absurd (ground arith)

  abbrev pub give : {A : Type 0} → A → Stateful S E A
  give a s = (s, good a)

  abbrev pub throw : {A : Type 0} → E → Stateful S E A
  throw e s = (s, bad e)

  -- code that does not touch the state
  abbrev pub pure : {A : Type 0} → Result E A → Stateful S E A
  pure r s = (s, r)

  -- code whose errors the caller wraps
  abbrev pub wrapped : {F A : Type 0} → (F → E) → S × Result F A → S × Result E A
  wrapped wrap (s, good a) = (s, good a)
  wrapped wrap (s, bad e) = (s, bad (wrap e))

-- `x, err := ...; if err != nil { return e }`
abbrev pub or_bad {ℓ κ} : {E : Type ℓ} {A : Type κ} → E → Option A → Result E A
or_bad e none = bad e
or_bad e (some a) = good a

abbrev pub good_unless {ℓ κ} : {E : Type ℓ} {A : Type κ} → Bool → E → A → Result E A
good_unless true e a = bad e
good_unless false e a = good a
