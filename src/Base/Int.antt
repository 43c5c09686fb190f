-- ===== src/Base/Int.antt =====
-- Signed integers over the native numbers (`negsuc n` is -(n + 1)), and 64-bit machine integers as
-- bit patterns below 2 ^ 64.
use Prim.Native.Nat.{ℕ, ◌+◌, ◌*◌, ◌%◌, ◌^◌, ◌<◌}
use mathlib.Core.Path.{◌≡◌}
use mathlib.Core.Bool.{Bool, true, false}
use native.Mathlib.Omega.{arith}
use massive.Base.Tests.{ltb, ◌==◌, if◌then◌else◌}

pub data ℤ : Type 0 where
  pos : ℕ → ℤ
  negsuc : ℕ → ℤ

abbrev pub is_negative : ℤ → Bool
is_negative (pos n) = false
is_negative (negsuc n) = true

-- `a == n` for a literal `n`
infix 50 ◌=ℤ◌
abbrev pub ◌=ℤ◌ : ℤ → ℕ → Bool
pos m =ℤ n = m == n
negsuc m =ℤ n = false

abbrev pub sign_bit : ℕ
sign_bit = 2 ^ 63

-- `a * b` on int64
unfoldable pub mul64 : ℕ → ℕ → ℕ
mul64 a b = a * b % 2 ^ 64

-- `a < b` on int64: the order of the patterns with the sign bit flipped
unfoldable pub ltb64 : ℕ → ℕ → Bool
ltb64 a b = ltb ((a + sign_bit) % 2 ^ 64) ((b + sign_bit) % 2 ^ 64)

-- `min(a, b)` on int64
unfoldable pub min64 : ℕ → ℕ → ℕ
unfolding ltb64
min64 a b = if ltb64 b a then b else a

pub mul64-eq : (a b : ℕ) → a * b < 2 ^ 63 → mul64 a b ≡ a * b
unfolding mul64
mul64-eq a b h = omega arith

pub ltb64-eq : (a b : ℕ) → a < 2 ^ 63 → b < 2 ^ 63 → ltb64 a b ≡ ltb a b
unfolding ltb64
ltb64-eq a b h k =
    let shift = λ (c : ℕ) (l : c < 2 ^ 63).
      let e : (c + sign_bit) % 2 ^ 64 ≡ c + sign_bit = omega arith in e in
    rw (shift a h, shift b k) (ground arith)
