-- ===== src/Utility/Decimal.antt =====
-- `countDigits` of utility.c against the decimal text that `sprintf` writes. `log10` of the C
-- library, rounded down, is a parameter.
use client_worker_thread_poo.Base.{
  ℕ, zero, suc, ◌+◌, ◌/◌, ◌%◌, ◌^◌, ◌≤◌, ◌<◌, ◌≡◌, refl, false, [], ◌∷◌, ◌++◌, arith, Text, length,
  length-append, ltb, ◌==◌, if◌then◌else◌,
}
use client_worker_thread_poo.Base.Int.{ℤ, pos, negsuc}
use native.Mathlib.Nat.{pow-suc}

-- The least digits first in `fuel` rounds; `n + 1` rounds are enough for `n`.
unfoldable pub decimal_loop : (fuel : ℕ) → ℕ → Text
decimal_loop zero n = []
decimal_loop (suc fuel) n =
    let more = decimal_loop fuel (n / 10) ++ (48 + n % 10) ∷ [] in
    if ltb n 10 then (48 + n) ∷ [] else more

-- What `sprintf` writes for `%d` and `%zu` of a number that is not negative.
unfoldable pub decimal : ℕ → Text
decimal n = decimal_loop (suc n) n

-- `log10` rounds down to the exponent of the leading digit.
pub record IsLog10 (log10 : ℕ → ℕ) : Type 0 where
  pub below : (n : ℕ) → 0 < n → 10 ^ log10 n ≤ n
  pub above : (n : ℕ) → 0 < n → n < 10 ^ suc (log10 n)

-- `abs(n)`; of the least int it is not defined in C.
abbrev pub magnitude : ℤ → ℕ
magnitude (pos n) = n
magnitude (negsuc n) = suc n

unfoldable pub count_digits : (log10 : ℕ → ℕ) → ℤ → ℕ
count_digits log10 n = if magnitude n == 0 then 1 else log10 (magnitude n) + 1

pow_pos : (k : ℕ) → 1 ≤ 10 ^ k
pow_pos zero = omega arith
pow_pos (suc k) = omega (arith, pow-suc 10 k, pow_pos k)

decimal_loop-length :
    (fuel n k : ℕ) → n < fuel → 10 ^ k ≤ n → n < 10 ^ suc k → length (decimal_loop fuel n) ≡ suc k
unfolding decimal_loop
decimal_loop-length zero n k h lo hi = absurd (omega arith)
decimal_loop-length (suc fuel) n zero h lo hi = ground arith
decimal_loop-length (suc fuel) n (suc k) h lo hi =
    let big : 10 ≤ n = omega (arith, pow-suc 10 k, pow_pos k) in
    let more : ltb n 10 ≡ false = ground arith in
    let rest : length (decimal_loop fuel (n / 10)) ≡ suc k =
      decimal_loop-length fuel (n / 10) k (omega arith) (omega (arith, pow-suc 10 k))
        (omega (arith, pow-suc 10 k, pow-suc 10 (suc k))) in
    rw more
      (omega (arith, rest, length-append {0} (decimal_loop fuel (n / 10)) ((48 + n % 10) ∷ [])))

-- For a `log10` that rounds down to the exponent of the leading digit, `countDigits` of a number
-- that is not negative is the number of characters that `sprintf` writes for it: the buffers that
-- main.c allocates with one byte more have room for the text and its final zero.
pub count_digits-decimal :
    (log10 : ℕ → ℕ) (n : ℕ) → IsLog10 log10 → count_digits log10 (pos n) ≡ length (decimal n)
unfolding count_digits decimal decimal_loop
count_digits-decimal log10 zero l = refl
count_digits-decimal log10 (suc n) l =
    let same : length (decimal_loop (suc (suc n)) (suc n)) ≡ suc (log10 (suc n)) =
      decimal_loop-length (suc (suc n)) (suc n) (log10 (suc n)) (omega arith)
        (l.below (suc n) (omega arith)) (l.above (suc n) (omega arith)) in
    ground arith
