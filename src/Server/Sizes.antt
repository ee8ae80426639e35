-- ===== src/Server/Sizes.antt =====
-- The space that a list of files takes, and what a change of one file does to it.
use client_worker_thread_poo.Base.{
  ℕ, ◌+◌, ◌≡◌, ◌≢◌, refl, sym, ap, subst, ◌∙◌, ◌⊎◌, inl, inr, Option, none, some, List, [], ◌∷◌,
  arith, Text, length, str_eq, str_eq_refl, str_eq_sound, Bool-cases,
}
use client_worker_thread_poo.Server.Os.{Files, put}

abbrev pub bytes_in : Option Text → ℕ
bytes_in none = 0
bytes_in (some b) = length b

unfoldable pub total : List Text → Files → ℕ
total [] files = 0
total (f ∷ fs) files = bytes_in (files f) + total fs files

-- no file twice
abbrev pub Apart : Text → List Text → Type 0
Apart f [] = Unit {0}
Apart f (g ∷ gs) = (f ≢ g) × Apart f gs

abbrev pub Distinct : List Text → Type 0
Distinct [] = Unit {0}
Distinct (f ∷ fs) = Apart f fs × Distinct fs

abbrev pub Among : Text → List Text → Type 0
Among f [] = ⊥
Among f (g ∷ gs) = (f ≡ g) ⊎ Among f gs

pub total_same : (fs : List Text) (a b : Files) → ((g : Text) → a g ≡ b g) → total fs a ≡ total fs b
unfolding total
total_same [] a b e = refl
total_same (f ∷ fs) a b e = rw (e f, total_same fs a b e) refl

put_other : (f g : Text) (o : Option Text) (a : Files) → f ≢ g → put f o a g ≡ a g
put_other f g o a ne = elim (Bool-cases (str_eq f g)) [
  | inl same ↦ absurd (ne (str_eq_sound f g same))
  | inr other ↦ rw other refl
]

pub total_elsewhere :
    (fs : List Text) (f : Text) (o : Option Text) (a : Files)
    → Apart f fs
    → total fs (put f o a) ≡ total fs a
unfolding total
total_elsewhere [] f o a h = refl
total_elsewhere (g ∷ gs) f o a (ne, h) = rw (put_other f g o a ne, total_elsewhere gs f o a h) refl

of_equal : (f g : Text) (fs : List Text) → f ≡ g → Apart g fs → Apart f fs
of_equal f g fs e h = subst (λ x. Apart x fs) (sym e) h

differs_from : (f g : Text) (fs : List Text) → Apart g fs → Among f fs → f ≢ g
differs_from f g [] a m e = absurd m
differs_from f g (h ∷ hs) (ne, a) (inl x) e = ne (sym e ∙ x)
differs_from f g (h ∷ hs) (ne, a) (inr m) e = differs_from f g hs a m e

-- Of distinct files, one that is replaced counts with its new size in place of its old one.
pub total-put :
    (fs : List Text) (f : Text) (o : Option Text) (a : Files)
    → Distinct fs
    → Among f fs
    → total fs (put f o a) + bytes_in (a f) ≡ total fs a + bytes_in o
unfolding total
total-put [] f o a d m = absurd m
total-put (g ∷ gs) f o a (apart, d) (inl e) =
    let here : put f o a g ≡ o = ap (put f o a) (sym e) ∙ rw (str_eq_refl f) refl in
    let old : bytes_in (a f) ≡ bytes_in (a g) = ap (λ x. bytes_in (a x)) e in
    let rest = total_elsewhere gs f o a (of_equal f g gs e apart) in
    rw (here, rest, old) (omega arith)
total-put (g ∷ gs) f o a (apart, d) (inr m) =
    let here = put_other f g o a (differs_from f g gs apart m) in
    let rest = total-put gs f o a d m in rw here (omega (arith, rest))

pub total_nothing : (fs : List Text) → total fs (λ _. none) ≡ 0
unfolding total
total_nothing [] = refl
total_nothing (f ∷ fs) = omega (arith, total_nothing fs)
