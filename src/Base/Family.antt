-- ===== src/Base/Family.antt =====
-- Families indexed by thread numbers: a change at one thread, and counts over the first `n`.
use Prim.Native.Nat.{ℕ, zero, suc, ◌+◌, ◌≤◌, ◌<◌}
use mathlib.Core.Path.{◌≡◌, refl, ◌∙◌}
use mathlib.Core.Logic.{◌≢◌, inl, inr}
use mathlib.Core.Bool.{Bool, true, false}
use native.Mathlib.Decide.{dec_lt}
use native.Mathlib.Omega.{arith}
use client_worker_thread_poo.Base.Tests.{◌==◌, ==_ne, ==_iff, Bool-cases, if◌then◌else◌}

abbrev pub update {ℓ} : {A : Type ℓ} → (ℕ → A) → ℕ → A → ℕ → A
update f i a j = if i == j then a else f j

module _ {ℓ} {A : Type ℓ} (test : A → Bool) where
  -- how many of the first `n` pass the test
  pub count_if : ℕ → (ℕ → A) → ℕ
  count_if zero f = 0
  count_if (suc n) f = count_if n f + (if test (f n) then 1 else 0)

  count_if-update_above :
      (n : ℕ) (f : ℕ → A) (i : ℕ) (a : A) → n ≤ i → count_if n (update f i a) ≡ count_if n f
  unfolding count_if
  count_if-update_above zero f i a h = refl
  count_if-update_above (suc n) f i a h = ground (arith, count_if-update_above n f i a)

  -- A change at `i` takes the old entry out of the count and puts the new one in.
  pub count_if-update :
      (n : ℕ) (f : ℕ → A) (i : ℕ) (a : A)
      → i < n
      → count_if n (update f i a) + (if test (f i) then 1 else 0)
        ≡ count_if n f + (if test a then 1 else 0)
  unfolding count_if
  count_if-update zero f i a h = absurd (omega arith)
  count_if-update (suc n) f i a h = elim (dec_lt i n) [
    | yes below ↦ ground (arith, count_if-update n f i a below)
    | no last ↦ ground (arith, count_if-update_above n f i a)
  ]

  pub count_if-pos : (n : ℕ) (f : ℕ → A) (i : ℕ) → i < n → test (f i) ≡ true → 0 < count_if n f
  unfolding count_if
  count_if-pos zero f i h p = absurd (omega arith)
  count_if-pos (suc n) f i h p = elim (dec_lt i n) [
    | yes below ↦ ground (arith, count_if-pos n f i below p)
    | no last ↦ ground arith
  ]

  pub count_if-le : (n : ℕ) (f : ℕ → A) → count_if n f ≤ n
  unfolding count_if
  count_if-le zero f = omega arith
  count_if-le (suc n) f = ground (arith, count_if-le n f)

  pub count_if-two :
      (n : ℕ) (f : ℕ → A) (i j : ℕ)
      → i < n
      → j < n
      → i ≢ j
      → test (f i) ≡ true
      → test (f j) ≡ true
      → 2 ≤ count_if n f
  unfolding count_if
  count_if-two zero f i j hi hj d p q = absurd (omega arith)
  count_if-two (suc n) f i j hi hj d p q = elim (dec_lt i n) [
    | yes below ↦ elim (dec_lt j n) [
      | yes also ↦ ground (arith, count_if-two n f i j below also)
      | no last ↦ ground (arith, count_if-pos n f i below p)
    ]
    | no last ↦ ground (arith, count_if-pos n f j)
  ]

  pub count_if-none : (n : ℕ) (f : ℕ → A) → ((i : ℕ) → test (f i) ≡ false) → count_if n f ≡ 0
  unfolding count_if
  count_if-none zero f h = refl
  count_if-none (suc n) f h = ground (arith, h n, count_if-none n f h)

  -- Whoever is counted is there.
  pub count_if-witness :
      (n : ℕ) (f : ℕ → A) → 0 < count_if n f → (i : ℕ) × (i < n) × (test (f i) ≡ true)
  unfolding count_if
  count_if-witness zero f h = absurd (omega arith)
  count_if-witness (suc n) f h = elim (Bool-cases (test (f n))) [
    | inl hit ↦ (n, omega arith, hit)
    | inr miss ↦ let (i, lt, p) = count_if-witness n f (ground arith) in (i, omega arith, p)
  ]

  -- Only the tests matter.
  pub count_if-ext :
      (n : ℕ) (f g : ℕ → A) → ((i : ℕ) → test (f i) ≡ test (g i)) → count_if n f ≡ count_if n g
  unfolding count_if
  count_if-ext zero f g h = refl
  count_if-ext (suc n) f g h = ground (arith, h n, count_if-ext n f g h)

pub update_ne : {A : Type 0} (f : ℕ → A) (i j : ℕ) (a : A) → i ≢ j → update f i a j ≡ f j
update_ne f i j a ne = rw (==_ne i j ne) refl

-- `f`, with the first `k` at `a`
unfoldable pub first : {A : Type 0} → A → ℕ → (ℕ → A) → ℕ → A
first a zero f = f
first a (suc k) f = update (first a k f) k a

pub first_above : {A : Type 0} (a : A) (k : ℕ) (f : ℕ → A) (j : ℕ) → k ≤ j → first a k f j ≡ f j
unfolding first
first_above a zero f j h = refl
first_above a (suc k) f j h =
    update_ne (first a k f) k j a (λ e. omega arith) ∙ first_above a k f j (omega arith)

pub first_below : {A : Type 0} (a : A) (k : ℕ) (f : ℕ → A) (j : ℕ) → j < k → first a k f j ≡ a
unfolding first
first_below a zero f j h = absurd (omega arith)
first_below a (suc k) f j h = elim (Bool-cases (k == j)) [
  | inl hit ↦ rw hit refl
  | inr miss ↦ rw miss (first_below a k f j (omega (arith, ne_of miss)))
]
  where
    ne_of : (k == j) ≡ false → k ≢ j
    ne_of e same = let yes_same = (==_iff k j).1 same in cc

pub first-prop :
    {A : Type 0} (P : A → Type 0) (a : A) (k : ℕ) (f : ℕ → A) (j : ℕ)
    → P a
    → P (f j)
    → P (first a k f j)
unfolding first
first-prop P a zero f j new old = old
first-prop P a (suc k) f j new old = elim (Bool-cases (k == j)) [
  | inl hit ↦ rw hit new
  | inr miss ↦ rw miss (first-prop P a k f j new old)
]
