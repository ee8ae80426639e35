-- ===== src/Session/Folders.antt =====
-- The folders of the users: the name is the user name followed by the id, with nothing in between.
use client_worker_thread_poo.Base.{
  ℕ, zero, suc, ◌+◌, ◌*◌, ◌/◌, ◌%◌, ◌<◌, ◌≡◌, refl, sym, ap, ◌∙◌, true, false, [], ◌∷◌, ◌++◌, arith,
  Text, codes, length, take, length-append, take_of_length_le, ltb, Bool-cases, inl, inr,
}
use client_worker_thread_poo.Base.Int.{pos}
use client_worker_thread_poo.Utility.Decimal.{
  decimal, decimal_loop, IsLog10, count_digits, count_digits-decimal,
}
use client_worker_thread_poo.Storage.Sqlite.{Sqlite}
use client_worker_thread_poo.Task.Defs.{user_dir}
use client_worker_thread_poo.Session.Defs.{Folders, folder_name}
use mathlib.Core.List.{append_assoc}

decimal_loop_enough : (f g n : ℕ) → n < f → n < g → decimal_loop f n ≡ decimal_loop g n
unfolding decimal_loop
decimal_loop_enough zero g n h k = absurd (omega arith)
decimal_loop_enough (suc f) zero n h k = absurd (omega arith)
decimal_loop_enough (suc f) (suc g) n h k = elim (Bool-cases (ltb n 10)) [
  | inl small ↦ rw small refl
  | inr big ↦ rw (big, decimal_loop_enough f g (n / 10) (ground arith) (ground arith)) refl
]

-- A number of two or more digits is the others followed by the last.
decimal_last : (k d : ℕ) → 0 < k → d < 10 → decimal (10 * k + d) ≡ decimal k ++ decimal d
unfolding decimal decimal_loop
decimal_last k d p h =
    let big : ltb (10 * k + d) 10 ≡ false = ground arith in
    let small : ltb d 10 ≡ true = ground arith in
    let others : (10 * k + d) / 10 ≡ k = omega arith in
    let last : (10 * k + d) % 10 ≡ d = omega arith in
    rw (big, small, others, last)
      (ap (λ x. x ++ (48 + d) ∷ [])
        (decimal_loop_enough (10 * k + d) (suc k) k (omega arith) (omega arith)))

-- Where `log10` rounds down to the exponent of the leading digit, the folder that SIGNUP makes has
-- the whole user name and the whole id in its name: the buffer is large enough.
pub folder_name_whole :
    (db : Sqlite) (dirs : Folders) (log10 : ℕ → ℕ) (n : Text) (k : ℕ)
    → IsLog10 log10
    → folder_name db dirs log10 n (pos k) ≡ n ++ decimal k
unfolding folder_name
folder_name_whole db dirs log10 n k l =
    take_of_length_le (length n + count_digits log10 (pos k)) (n ++ decimal k)
      (omega (arith, length-append {0} n (decimal k), count_digits-decimal log10 k l))

-- Two users share a directory wherever the name of one is the name `n` of the other followed by the
-- leading digits `k` of the other's id, and its own id is the last digit.
pub user_dir_shared :
    (n : Text) (k d : ℕ)
    → 0 < k
    → d < 10
    → user_dir (record { user_id = d; username = n ++ decimal k })
      ≡ user_dir (record { user_id = 10 * k + d; username = n })
unfolding user_dir
user_dir_shared n k d p h =
    let slash = codes "/" in
    let digits : decimal k ++ (decimal d ++ slash) ≡ decimal (10 * k + d) ++ slash =
      sym (append_assoc (decimal k) (decimal d) slash)
      ∙ ap (λ x. x ++ slash) (sym (decimal_last k d p h)) in
    ap (take 511) (append_assoc n (decimal k) (decimal d ++ slash) ∙ ap (◌++◌ n) digits)
