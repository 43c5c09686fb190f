-- ===== src/Base/ByteText.antt =====
-- Go's byte slices and strings as lists of bytes, with the functions of the packages bytes and
-- strings that the program calls on them.
use Prim.Native.Nat.{ℕ}
use Prim.Native.Char.{code}
use Prim.Native.String.{String}
use mathlib.Core.Path.{◌≡◌, refl}
use mathlib.Core.Logic.{◌↔◌, ◌≢◌, inl, inr}
use mathlib.Core.Bool.{Bool, true, false, ◌&&◌, ◌||◌}
use mathlib.Core.Option.{Option, none, some}
use mathlib.Core.List.{List, [], ◌∷◌}
use native.Mathlib.Omega.{arith}
use massive.Base.Tests.{◌==◌, leb, Bool-cases}

abbrev pub Bytes : Type 0
Bytes = List ℕ

-- the bytes of an ASCII literal
abbrev pub codes : String → Bytes
codes String.[] = []
codes (String.◌∷◌ c s) = code c ∷ codes s

-- bytes.Equal
abbrev pub bytes_equal : Bytes → Bytes → Bool
bytes_equal [] [] = true
bytes_equal [] (y ∷ ys) = false
bytes_equal (x ∷ xs) [] = false
bytes_equal (x ∷ xs) (y ∷ ys) = x == y && bytes_equal xs ys

pub bytes_equal_iff : (a b : Bytes) → (bytes_equal a b ≡ true) ↔ (a ≡ b)
bytes_equal_iff [] [] = (λ _. refl, λ _. refl)
bytes_equal_iff [] (y ∷ ys) = (λ h. absurd (ground arith), λ h. absurd (ground arith))
bytes_equal_iff (x ∷ xs) [] = (λ h. absurd (ground arith), λ h. absurd (ground arith))
bytes_equal_iff (x ∷ xs) (y ∷ ys) =
    let ih = bytes_equal_iff xs ys in (λ h. ground (arith, ih.0), λ h. ground (arith, ih.1))

pub bytes_equal_refl : (a : Bytes) → bytes_equal a a ≡ true
bytes_equal_refl a = (bytes_equal_iff a a).1 refl

-- an equation that would be absurd
pub bytes_equal_never : (a b : Bytes) → (a ≢ b) → bytes_equal a b ≡ false
bytes_equal_never a b h = elim (Bool-cases (bytes_equal a b)) [
  | inl same ↦ absurd (h ((bytes_equal_iff a b).0 same))
  | inr other ↦ other
]

-- strings.CutPrefix
abbrev pub cut_prefix : Bytes → Bytes → Option Bytes
cut_prefix [] s = some s
cut_prefix (p ∷ ps) [] = none
cut_prefix (p ∷ ps) (c ∷ s) = elim (p == c) [ true ↦ cut_prefix ps s | false ↦ none ]

abbrev pub or_whole : Bytes → Option Bytes → Bytes
or_whole s none = s
or_whole s (some rest) = rest

-- strings.TrimPrefix
abbrev pub trim_prefix : Bytes → Bytes → Bytes
trim_prefix p s = or_whole s (cut_prefix p s)

-- a byte that occurs
abbrev pub has_byte : ℕ → Bytes → Bool
has_byte b [] = false
has_byte b (c ∷ s) = c == b || has_byte b s

-- a byte of `0-9a-f`
abbrev pub is_hex_byte : ℕ → Bool
is_hex_byte c = leb b'0' c && leb c b'9' || leb b'a' c && leb c b'f'

abbrev pub all_bytes : (ℕ → Bool) → Bytes → Bool
all_bytes p [] = true
all_bytes p (c ∷ s) = p c && all_bytes p s
