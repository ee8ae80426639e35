-- ===== src/Client/Words.antt =====
-- The client and the server take a line apart in the same way.
use client_worker_thread_poo.Base.{
  ℕ, suc, ◌≡◌, refl, sym, ap, ◌∙◌, none, some, some_inj, subst, Option-cases, inl, inr, Text, drop,
}
use client_worker_thread_poo.Utility.Words.{space, strchr, first_word}
use client_worker_thread_poo.Client.Defs.{up_to, get_first_word, after_command, get_filename}

up_to-first_word : (s : Text) → up_to s (strchr s space) ≡ (first_word s).0
unfolding first_word
up_to-first_word s = elim (Option-cases (strchr s space)) [
  | inl e ↦ rw (e, first_word) refl
  | inr (n, e) ↦ rw (e, first_word) refl
]

rest_lem : (s : Text) (n : ℕ) → strchr s space ≡ some n → (first_word s).1 ≡ drop (suc n) s
unfolding first_word
rest_lem s n e = rw (e, first_word) refl

filename_lem : (s f : Text) → get_filename s ≡ some f → f ≡ (first_word (first_word s).1).0
unfolding get_filename
filename_lem s f e = elim (Option-cases (strchr s space)) [
  | inl h ↦ let none_there : none ≡ some f = subst (λ o. after_command s o ≡ some f) h e in cc
  | inr (n, h) ↦
      let cut = subst (λ o. after_command s o ≡ some f) h e in
      sym (some_inj cut)
      ∙ up_to-first_word (drop (suc n) s)
      ∙ ap (λ x. (first_word x).0) (sym (rest_lem s n h))
]

-- The client and the server take every line apart in the same way: `get_first_word` gives what the
-- server's first `firstWord` gives, and where `get_filename` gives a name, it is what the second gives.
pub get_filename-first_word :
    (s : Text)
    → (get_first_word s ≡ (first_word s).0)
      × ((f : Text) → get_filename s ≡ some f → f ≡ (first_word (first_word s).1).0)
unfolding get_first_word
get_filename-first_word s = (up_to-first_word s, filename_lem s)
