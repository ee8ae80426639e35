-- ===== src/Storage/Race.antt =====
-- Two uploads of one user at the same time: the check of the quota and the charge are two calls.
use client_worker_thread_poo.Base.{ℕ, ◌+◌, ◌-◌, ◌≤◌, ◌≡◌, refl, ap, ◌∙◌, true, some, arith, ==_iff}
use client_worker_thread_poo.Base.Int.{pos, ◌-ℤ◌, ◌+ℤ◌, -ℤ_parts, +ℤ_parts, eq_of_parts}
use client_worker_thread_poo.Storage.Sqlite.{Quota}
use client_worker_thread_poo.Storage.Defs.{
  query, check_quota, get_user_quota, get_used_space, update_used_space,
}
use client_worker_thread_poo.Storage.Memory.{File, memory}

abbrev pub row_of : (q u : ℕ) → Quota
row_of q u = record { quota_bytes = pos q; used_bytes = pos u }

room : (q u : ℕ) → u ≤ q → (pos q -ℤ pos u) ≡ pos (q - u)
room q u h = eq_of_parts (pos q -ℤ pos u) (pos (q - u)) (omega (arith, -ℤ_parts (pos q) (pos u)))

plus : (u a : ℕ) → (pos u +ℤ pos a) ≡ pos (u + a)
plus u a = eq_of_parts (pos u +ℤ pos a) (pos (u + a)) (omega (arith, +ℤ_parts (pos u) (pos a)))

check_lem :
    (i q u a : ℕ) (f : File)
    → f.now.quotas (pos i) ≡ some (row_of q u)
    → u + a ≤ q
    → ((check_quota memory (pos i) (pos a) f).0 ≡ true)
      × ((check_quota memory (pos i) (pos a) f).1.now ≡ f.now)
unfolding check_quota get_user_quota get_used_space query
check_lem i q u a f e h = rw (e, room q u (omega arith)) (ground arith, refl)

charge_lem :
    (i q u a : ℕ) (f : File)
    → f.now.quotas (pos i) ≡ some (row_of q u)
    → (update_used_space memory (pos i) (pos a) f).1.now.quotas (pos i) ≡ some (row_of q (u + a))
unfolding update_used_space
charge_lem i q u a f e =
    rw (e, (==_iff i i).1 refl)
      (ap (λ z. some (record { quota_bytes = pos q; used_bytes = z })) (plus u a))

-- Two uploads of one user can both pass the check and together exceed the quota. On a database in
-- memory where no call fails, for a user with the quota `q` who uses `u` bytes: if `u + a` and `u + b`
-- each fit the quota, and both uploads are checked before the first is charged, both checks allow the
-- upload, and after both charges the used space is `u + a + b`, whether that fits the quota or not.
pub quota_race :
    (i q u a b : ℕ) (f : File)
    → f.now.quotas (pos i) ≡ some (row_of q u)
    → u + a ≤ q
    → u + b ≤ q
    → (f₁ f₂ f₃ f₄ : File) × (check_quota memory (pos i) (pos a) f ≡ (true, f₁))
      × (check_quota memory (pos i) (pos b) f₁ ≡ (true, f₂))
      × ((update_used_space memory (pos i) (pos a) f₂).1 ≡ f₃)
      × ((update_used_space memory (pos i) (pos b) f₃).1 ≡ f₄)
      × (f₄.now.quotas (pos i) ≡ some (row_of q (u + a + b)))
quota_race i q u a b f e fa fb =
    let (ok₁, same₁) = check_lem i q u a f e fa in
    let f₁ = (check_quota memory (pos i) (pos a) f).1 in
    let e₁ : f₁.now.quotas (pos i) ≡ some (row_of q u) = ap (λ c. c.quotas (pos i)) same₁ ∙ e in
    let (ok₂, same₂) = check_lem i q u b f₁ e₁ fb in
    let f₂ = (check_quota memory (pos i) (pos b) f₁).1 in
    let e₂ : f₂.now.quotas (pos i) ≡ some (row_of q u) = ap (λ c. c.quotas (pos i)) same₂ ∙ e₁ in
    let f₃ = (update_used_space memory (pos i) (pos a) f₂).1 in
    let e₃ = charge_lem i q u a f₂ e₂ in
    let f₄ = (update_used_space memory (pos i) (pos b) f₃).1 in
    (
      f₁,
      f₂,
      f₃,
      f₄,
      (λ j. (ok₁ j, f₁)),
      (λ j. (ok₂ j, f₂)),
      refl,
      refl,
      charge_lem i q (u + a) b f₃ e₃,
    )
