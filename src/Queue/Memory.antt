-- ===== src/Queue/Memory.antt =====
-- The memory that the queue allocates from: what `malloc` gave out and was not freed yet.
use client_worker_thread_poo.Base.{
  ℕ, ◌≡◌, ◌≢◌, arith, Option, none, some, ◌==◌, ◌>>=◌, if◌then◌else◌,
}

abbrev pub Ptr : Type 0
Ptr = ℕ

abbrev pub null : Ptr
null = 0

-- A fresh allocation, a `QueueNode` with its `data` and `next`, or a copied element.
pub data Cell (A : Type 0) : Type 0 where
  raw : Cell A
  node : Ptr → Ptr → Cell A
  value : A → Cell A

abbrev pub Memory : Type 0 → Type 0
Memory A = Ptr → Option (Cell A)

module _ {A : Type 0} where
  unfoldable pub write : Memory A → Ptr → Option (Cell A) → Memory A
  write m p c a = if a == p then c else m a

  node_of : Option (Cell A) → Option (Ptr × Ptr)
  node_of (some (node d n)) = some (d, n)
  node_of _ = none

  value_of : Option (Cell A) → Option A
  value_of (some (value a)) = some a
  value_of _ = none

  -- `p->data` and `p->next`: a fault at NULL and at an address that holds no node
  unfoldable pub load_node : Memory A → Ptr → Option (Ptr × Ptr)
  unfolding node_of
  load_node m p = if p == null then none else node_of (m p)

  -- the element that `memcpy` reads at `p`
  unfoldable pub load_value : Memory A → Ptr → Option A
  unfolding value_of
  load_value m p = if p == null then none else value_of (m p)

  -- `free(p)`: a fault where nothing is allocated
  unfoldable pub free : Memory A → Ptr → Option (Memory A)
  free m p =
      if p == null then some m else elim (m p) [ none ↦ none | some c ↦ some (write m p none) ]

  -- `p->next = q`
  unfoldable pub set_next : Memory A → Ptr → Ptr → Option (Memory A)
  set_next m p q = load_node m p >>= λ (d, n). some (write m p (some (node d q)))

  module _ (m : Memory A) (p : Ptr) (ne : p ≢ null) where
    pub load_node-node : (d n : Ptr) → m p ≡ some (node d n) → load_node m p ≡ some (d, n)
    unfolding load_node
    load_node-node d n e = rw e (ground arith)

    pub load_value-value : (a : A) → m p ≡ some (value a) → load_value m p ≡ some a
    unfolding load_value
    load_value-value a e = rw e (ground arith)

    pub free-some : (c : Cell A) → m p ≡ some c → free m p ≡ some (write m p none)
    unfolding free
    free-some c e = ground arith

    pub set_next-node :
        (d n q : Ptr) → m p ≡ some (node d n) → set_next m p q ≡ some (write m p (some (node d q)))
    unfolding set_next
    set_next-node d n q e = rw (load_node-node d n e)
