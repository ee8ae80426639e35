-- ===== src/Queue/Chain.antt =====
-- What a queue in memory stands for: its entries, from the front to the rear.
use mathlib.Core.Bool.{false≢true}
use client_worker_thread_poo.Base.{
  ◌^◌, ◌<◌, ◌≡◌, ◌≢◌, refl, sym, ap, subst, ◌∙◌, inl, inr, Bool, true, false, ◌||◌, Option, none,
  some, List, [], ◌∷◌, ◌++◌, arith, ◌==◌, ==_iff, length, Bool-cases,
}
use client_worker_thread_poo.Queue.Memory.{Ptr, null, Cell, node, value, Memory, write}
use client_worker_thread_poo.Queue.Defs.{Queue}

-- A node, the block of its element, and the element.
pub record Entry (A : Type 0) : Type 0 where
  pub cell : Ptr
  pub block : Ptr
  pub item : A

abbrev pub entry : {A : Type 0} → Ptr → Ptr → A → Entry A
entry n d a = record { cell = n; block = d; item = a }

module _ {A : Type 0} where
  abbrev pub items : List (Entry A) → List A
  items [] = []
  items (e ∷ es) = e.item ∷ items es

  abbrev pub first : List (Entry A) → Ptr → Ptr
  first [] stop = stop
  first (e ∷ es) stop = e.cell

  abbrev pub last : Ptr → List (Entry A) → Ptr
  last p [] = p
  last p (e ∷ es) = last e.cell es

  -- The address belongs to an entry.
  abbrev pub has : Ptr → List (Entry A) → Bool
  has p [] = false
  has p (e ∷ es) = p == e.cell || (p == e.block || has p es)

  -- From the first entry on, the `next` pointers lead through the entries to `stop`.
  abbrev pub Linked : Memory A → List (Entry A) → Ptr → Type 0
  Linked m [] stop = Unit {0}
  Linked m (e ∷ es) stop =
      (m e.cell ≡ some (node e.block (first es stop)))
      × (m e.block ≡ some (value e.item))
      × (e.cell ≢ null)
      × (e.block ≢ null)
      × Linked m es stop

  -- No address serves twice.
  abbrev pub Apart : List (Entry A) → Type 0
  Apart [] = Unit {0}
  Apart (e ∷ es) =
      (has e.cell es ≡ false) × (has e.block es ≡ false) × (e.cell ≢ e.block) × Apart es

  pub record IsQueue (m : Memory A) (q : Queue) (es : List (Entry A)) : Type 0 where
    pub front : q.front ≡ first es null
    pub rear : q.rear ≡ last null es
    pub size : q.size ≡ length es
    pub bound : length es < 2 ^ 64
    pub linked : Linked m es null
    pub apart : Apart es

  pub SameAt-Linked :
      (m m' : Memory A) (es : List (Entry A)) (stop : Ptr)
      → ((p : Ptr) → has p es ≡ true → m' p ≡ m p)
      → Linked m es stop
      → Linked m' es stop
  SameAt-Linked m m' [] stop same h = tt
  SameAt-Linked m m' (e ∷ es) stop same (hn, hv, n0, b0, rest) = (
    same e.cell (ground arith) ∙ hn,
    same e.block (ground arith) ∙ hv,
    n0,
    b0,
    SameAt-Linked m m' es stop (λ p i. same p (ground arith)) rest,
  )

  pub write-Linked :
      (m : Memory A) (es : List (Entry A)) (stop p : Ptr) (c : Option (Cell A))
      → has p es ≡ false
      → Linked m es stop
      → Linked (write m p c) es stop
  unfolding write
  write-Linked m es stop p c out h =
      SameAt-Linked m (write m p c) es stop
        (λ a i. elim (Bool-cases (a == p)) [
          | inl hit ↦
              absurd (false≢true (sym out ∙ subst (λ x. has x es ≡ true) ((==_iff a p).0 hit) i))
          | inr miss ↦ rw miss
        ])
        h

  -- An unallocated address belongs to no entry.
  pub not-has_of_none :
      (m : Memory A) (es : List (Entry A)) (stop p : Ptr)
      → Linked m es stop
      → m p ≡ none
      → has p es ≡ false
  not-has_of_none m [] stop p h e = refl
  not-has_of_none m (x ∷ es) stop p h e = ground (arith, not-has_of_none m es stop p h.4 e)

  pub has-append :
      (p : Ptr) (es : List (Entry A)) (x : Entry A)
      → has p (es ++ x ∷ []) ≡ (has p es || (p == x.cell || p == x.block))
  has-append p [] x = ground arith
  has-append p (e ∷ es) x = ground (arith, has-append p es x)

  pub Apart-append :
      (es : List (Entry A)) (x : Entry A)
      → Apart es
      → has x.cell es ≡ false
      → has x.block es ≡ false
      → x.cell ≢ x.block
      → Apart (es ++ x ∷ [])
  Apart-append [] x a hc hb ne = (refl, refl, ne, tt)
  Apart-append (e ∷ es) x (ac, ab, an, rest) hc hb ne = (
    ground (arith, has-append e.cell es x),
    ground (arith, has-append e.block es x),
    an,
    Apart-append es x rest (ground arith) (ground arith) ne,
  )

  pub last-append : (p : Ptr) (es : List (Entry A)) (x : Entry A) → last p (es ++ x ∷ []) ≡ x.cell
  last-append p [] x = refl
  last-append p (e ∷ es) x = last-append e.cell es x

  pub first-append :
      (es : List (Entry A)) (x : Entry A) (stop : Ptr) → first (es ++ x ∷ []) stop ≡ first es x.cell
  first-append [] x stop = refl
  first-append (e ∷ es) x stop = refl

  pub Linked-append :
      (m : Memory A) (es : List (Entry A)) (x : Entry A) (stop : Ptr)
      → Linked m es x.cell
      → Linked m (x ∷ []) stop
      → Linked m (es ++ x ∷ []) stop
  Linked-append m [] x stop h k = k
  Linked-append m (e ∷ es) x stop (hn, hv, n0, b0, rest) k =
      (rw (first-append es x stop) hn, hv, n0, b0, Linked-append m es x stop rest k)

  pub items-append :
      (es : List (Entry A)) (x : Entry A) → items (es ++ x ∷ []) ≡ items es ++ x.item ∷ []
  items-append [] x = refl
  items-append (e ∷ es) x = ap (◌∷◌ e.item) (items-append es x)

  pub write_other : (m : Memory A) (p a : Ptr) (c : Option (Cell A)) → a ≢ p → write m p c a ≡ m a
  unfolding write
  write_other m p a c ne = ground arith

  pub write_self : (m : Memory A) (p : Ptr) (c : Option (Cell A)) → write m p c p ≡ c
  unfolding write
  write_self m p c = ground arith

  pub ne_of_has : (es : List (Entry A)) (p r : Ptr) → has p es ≡ false → has r es ≡ true → p ≢ r
  ne_of_has es p r out i e = false≢true (sym out ∙ rw e i)

  -- The last node of a chain, before and after its `next` is set to `n`.
  pub record Tail (m : Memory A) (e : Entry A) (es : List (Entry A)) (stop n : Ptr) : Type 0 where
    pub data_ptr : Ptr
    pub holds : m (last e.cell es) ≡ some (node data_ptr stop)
    pub ne_null : last e.cell es ≢ null
    pub inside : has (last e.cell es) (e ∷ es) ≡ true
    pub linked : Linked (write m (last e.cell es) (some (node data_ptr n))) (e ∷ es) n

  pub Linked-Tail :
      (m : Memory A) (e : Entry A) (es : List (Entry A)) (stop n : Ptr)
      → Linked m (e ∷ es) stop
      → Apart (e ∷ es)
      → Tail m e es stop n
  Linked-Tail m e [] stop n (hn, hv, n0, b0, _) (_, _, ne, _) = record {
    data_ptr = e.block;
    holds = hn;
    ne_null = n0;
    inside = ground arith;
    linked =
        (write_self m e.cell _, write_other m e.cell e.block _ (λ q. ne (sym q)) ∙ hv, n0, b0, tt);
  }
  Linked-Tail m e (x ∷ es) stop n (hn, hv, n0, b0, rest) (oc, ob, ne, apart) =
      let t = Linked-Tail m x es stop n rest apart in
      record {
        data_ptr = t.data_ptr;
        holds = t.holds;
        ne_null = t.ne_null;
        inside = rw t.inside (ground arith);
        linked = (
          write_other m _ e.cell _ (ne_of_has (x ∷ es) e.cell _ oc t.inside) ∙ hn,
          write_other m _ e.block _ (ne_of_has (x ∷ es) e.block _ ob t.inside) ∙ hv,
          n0,
          b0,
          t.linked,
        );
      }
