-- ===== src/Base/Word.antt =====
-- Machine integers as bit patterns: a C `int` or `size_t` that is counted up and down.
use Prim.Native.Nat.{ℕ, ◌+◌, ◌-◌, ◌%◌, ◌^◌, ◌<◌}
use mathlib.Core.Path.{◌≡◌}
use native.Mathlib.Omega.{arith}

-- `n++` and `n--` on 32 bits
unfoldable pub inc32 : ℕ → ℕ
inc32 n = (n + 1) % 2 ^ 32

unfoldable pub dec32 : ℕ → ℕ
dec32 n = (n + 2 ^ 32 - 1) % 2 ^ 32

-- `n++` and `n--` on 64 bits
unfoldable pub inc64 : ℕ → ℕ
inc64 n = (n + 1) % 2 ^ 64

unfoldable pub dec64 : ℕ → ℕ
dec64 n = (n + 2 ^ 64 - 1) % 2 ^ 64

pub inc32_small : (n : ℕ) → n + 1 < 2 ^ 32 → inc32 n ≡ n + 1
unfolding inc32
inc32_small n h = omega arith

pub dec32_small : (n : ℕ) → 0 < n → n < 2 ^ 32 → dec32 n ≡ n - 1
unfolding dec32
dec32_small n p h = omega arith

pub inc64_small : (n : ℕ) → n + 1 < 2 ^ 64 → inc64 n ≡ n + 1
unfolding inc64
inc64_small n h = omega arith

pub dec64_small : (n : ℕ) → 0 < n → n < 2 ^ 64 → dec64 n ≡ n - 1
unfolding dec64
dec64_small n p h = omega arith
