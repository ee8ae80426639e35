-- ===== src/Utility/Words.antt =====
-- `firstWord` of utility.c, and what it makes of a command line.
use client_worker_thread_poo.Base.{
  ℕ, ◌≡◌, ◌≢◌, refl, ap, Option, none, some, [], ◌∷◌, ◌++◌, arith, ◌==◌, Text, take, drop, length,
  if◌then◌else◌, ◌⊎◌, inl, inr, suc, ℕ_discrete,
}

abbrev pub space : ℕ
space = 32

-- `strchr(s, c)` as an offset from `s`
unfoldable pub strchr : Text → ℕ → Option ℕ
strchr [] c = none
strchr (b ∷ s) c =
    let rest = strchr s c in
    if b == c then some 0 else elim rest [ none ↦ none | some i ↦ some (suc i) ]

-- The word that is returned, and what `Stmt` holds afterwards.
unfoldable pub first_word : Text → Text × Text
first_word s = elim (strchr s space) [ none ↦ (s, []) | some n ↦ (take n s, drop (suc n) s) ]

-- The text has no space.
abbrev pub IsWord : Text → Type 0
IsWord [] = Unit {0}
IsWord (b ∷ s) = (b ≢ space) × IsWord s

strchr-word : (s : Text) → IsWord s → strchr s space ≡ none
unfolding strchr
strchr-word [] h = refl
strchr-word (b ∷ s) h = rw (strchr-word s h.1) (ground arith)

strchr-space : (w rest : Text) → IsWord w → strchr (w ++ space ∷ rest) space ≡ some (length w)
unfolding strchr
strchr-space [] rest h = refl
strchr-space (b ∷ w) rest h = rw (strchr-space w rest h.1) (ground arith)

take-length : (w rest : Text) → take (length w) (w ++ rest) ≡ w
take-length [] rest = refl
take-length (b ∷ w) rest = ap (◌∷◌ b) (take-length w rest)

drop-length : (w rest : Text) (b : ℕ) → drop (suc (length w)) (w ++ b ∷ rest) ≡ rest
drop-length [] rest b = refl
drop-length (c ∷ w) rest b = drop-length w rest b

-- The first word of a line is cut off at its first space, and is the whole line if there is none.
pub first_word-space : (w rest : Text) → IsWord w → first_word (w ++ space ∷ rest) ≡ (w, rest)
unfolding first_word
first_word-space w rest h =
    rw (strchr-space w rest h, first_word, take-length w (space ∷ rest), drop-length w rest space)

pub first_word-last : (w : Text) → IsWord w → first_word w ≡ (w, [])
unfolding first_word
first_word-last w h = rw (strchr-word w h, first_word)

-- Every line splits: its first word has no space, and the line is that word, or that word, a space
-- and the rest.
pub record Split (s : Text) (r : Text × Text) : Type 0 where
  pub word : IsWord r.0
  pub whole : (s ≡ r.0 ++ space ∷ r.1) ⊎ ((s ≡ r.0) × (r.1 ≡ []))

split_cases :
    (s : Text) → IsWord s ⊎ ((w : Text) × (rest : Text) × IsWord w × (s ≡ w ++ space ∷ rest))
split_cases [] = inl tt
split_cases (b ∷ s) = elim (ℕ_discrete b space) [
  | yes e ↦ inr ([], s, tt, ap (λ c. c ∷ s) e)
  | no ne ↦ elim (split_cases s) [
    | inl h ↦ inl (ne, h)
    | inr (w, rest, h, e) ↦ inr (b ∷ w, rest, (ne, h), ap (◌∷◌ b) e)
  ]
]

-- `firstWord` splits every line: the word it returns has no space, and the line was that word, a
-- space and what is left; or, if it had no space, that word, and nothing is left.
pub first_word-Split : (s : Text) → Split s (first_word s)
first_word-Split s = elim (split_cases s) [
  | inl h ↦ rw (first_word-last s h) (record { word = h; whole = inr (refl, refl) })
  | inr (w, rest, h, e) ↦ rw (e, first_word-space w rest h) (record { word = h; whole = inl refl })
]

-- The three words that `signup_login` takes off a command line.
unfoldable pub three_words : Text → Text × Text × Text
three_words s =
    let (what, s₁) = first_word s in
    let (user, s₂) = first_word s₁ in let (pass, s₃) = first_word s₂ in (what, user, pass)

-- A command line of three words without spaces, joined by single spaces, gives back these words.
pub three_words-join :
    (a b c : Text)
    → IsWord a
    → IsWord b
    → IsWord c
    → three_words (a ++ space ∷ (b ++ space ∷ c)) ≡ (a, b, c)
unfolding three_words
three_words-join a b c ha hb hc =
    rw (first_word-space a (b ++ space ∷ c) ha, first_word-space b c hb, first_word-last c hc)
