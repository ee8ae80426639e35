-- ===== src/Session/Buffer.antt =====
-- The user name that LOGIN leaves in the buffer of 256 bytes.
use client_worker_thread_poo.Base.{
  ℕ, ◌≡◌, ◌≢◌, refl, sym, ap, ◌∙◌, Bool, true, false, none, some, [], ◌∷◌, ◌++◌, arith, Text,
  length, drop, ltb, ◌==◌, some_inj, if◌then◌else◌,
}
use client_worker_thread_poo.Storage.Sqlite.{Sqlite}
use client_worker_thread_poo.Session.Defs.{Gahak, c_string, Folders, World, login_cmd}

-- The text of a C string.
abbrev pub NoZero : Text → Type 0
NoZero [] = Unit {0}
NoZero (b ∷ s) = (b ≢ 0) × NoZero s

c_string-append : (n buf : Text) → NoZero n → c_string (n ++ buf) ≡ n ++ c_string buf
unfolding c_string
c_string-append [] buf h = refl
c_string-append (b ∷ n) buf h =
    let later : (b == 0) ≡ false = let ne = h.0 in ground arith in
    rw (later, c_string-append n buf h.1) refl

chosen : {A : Type 0} (c : Bool) (x y : A) → (if c then none else some x) ≡ some y → x ≡ y
chosen true x y e = cc
chosen false x y e = some_inj e

module _ (db : Sqlite) (dirs : Folders) (log10 : ℕ → ℕ) where
  -- LOGIN copies the name without a final zero: where it returns, whether it lets in or not, the
  -- buffer holds the name followed by what the buffer held behind it, up to the next zero byte.
  pub login_cmd-username :
      (n p : Text) (g : Gahak) (w : World db dirs log10)
      → (r : (Bool × Gahak) × World db dirs log10) → NoZero n
      → login_cmd db dirs log10 n p g w ≡ some r
      → c_string r.0.1.username ≡ n ++ c_string (drop (length n) g.username)
  unfolding login_cmd
  login_cmd-username n p g (s, d) r h e =
      let same = chosen (ltb 256 (length n)) _ r e in
      ap (λ (x : (Bool × Gahak) × World db dirs log10). c_string x.0.1.username) (sym same)
      ∙ c_string-append n (drop (length n) g.username) h
