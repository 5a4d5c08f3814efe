-- ===== src/Base/Words.antt =====
-- 32-bit words: `uint`, and `int` as its bit pattern in two's complement.
use hyu_ele3021_os.Base.Tests.{ltb, leb}
use Prim.Native.Nat.{ℕ, ◌+◌, ◌-◌, ◌%◌, ◌^◌}
use mathlib.Core.Bool.{Bool, ◌&&◌}

-- One more, one less, sum and difference of words, wrapping round.
abbrev pub inc32 : ℕ → ℕ
inc32 n = (n + 1) % 2 ^ 32

abbrev pub dec32 : ℕ → ℕ
dec32 n = (n + (2 ^ 32 - 1)) % 2 ^ 32

abbrev pub add32 : ℕ → ℕ → ℕ
add32 a b = (a + b) % 2 ^ 32

abbrev pub sub32 : ℕ → ℕ → ℕ
sub32 a b = (a + 2 ^ 32 - b) % 2 ^ 32

-- The signed tests `n > 0` and `n >= k`, for a constant `k` that is not negative.
abbrev pub positive : ℕ → Bool
positive n = ltb 0 n && ltb n (2 ^ 31)

abbrev pub at_least : ℕ → ℕ → Bool
at_least k n = leb k n && ltb n (2 ^ 31)
