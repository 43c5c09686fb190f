-- ===== src/Canonical/Order.antt =====
-- `LessUTF16` of internal/canonical/canonical.go: strings by UTF-16 code units, and lists sorted by
-- it. The program sorts strings only, so equal elements cannot be told apart and the sorted list
-- does not depend on the algorithm of Go's sort package.
use Prim.Native.Char.{code}
use massive.Base.{
  ℕ, ◌+◌, ◌-◌, ◌/◌, ◌%◌, String, List, [], ◌∷◌, ◌++◌, Bool, true, false, ◌&&◌, ◌||◌, ltb, leb, ◌==◌,
  if◌then◌else◌,
}

-- one rune under utf16.Encode
unfoldable pub code_units : ℕ → List ℕ
code_units r =
    if ltb r 0xd800 || leb 0xe000 r && ltb r 0x10000
    then r ∷ []
    else (if leb 0x10000 r && leb r 0x10ffff
        then (0xd800 + (r - 0x10000) / 0x400) ∷ (0xdc00 + (r - 0x10000) % 0x400) ∷ []
        else 0xfffd ∷ [])

-- utf16.Encode([]rune(s))
unfoldable pub utf16 : String → List ℕ
unfolding code_units
utf16 String.[] = []
utf16 (String.◌∷◌ c s) = code_units (code c) ++ utf16 s

unfoldable pub less_units : List ℕ → List ℕ → Bool
less_units [] [] = false
less_units [] (y ∷ ys) = true
less_units (x ∷ xs) [] = false
less_units (x ∷ xs) (y ∷ ys) = if x == y then less_units xs ys else ltb x y

unfoldable pub less_utf16 : String → String → Bool
unfolding utf16 less_units
less_utf16 a b = less_units (utf16 a) (utf16 b)

-- `slices.Insert(xs, position, x)` at the position that `slices.BinarySearchFunc` finds in a sorted
-- slice: before the first element that is not less
unfoldable pub insert_sorted : String → List String → List String
insert_sorted x [] = x ∷ []
insert_sorted x (y ∷ ys) = if less_utf16 y x then y ∷ insert_sorted x ys else x ∷ y ∷ ys

unfoldable pub sort_utf16 : List String → List String
sort_utf16 [] = []
sort_utf16 (x ∷ xs) = insert_sorted x (sort_utf16 xs)
