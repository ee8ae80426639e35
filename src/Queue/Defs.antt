-- ===== src/Queue/Defs.antt =====
-- The functions of queue.c. A `Queue*` is an `Option Queue`, whose `none` is NULL; the struct lives
-- outside the memory of the nodes, so a function that updates it returns the new value. What is
-- allocated last, `malloc` decides from the memory.
use client_worker_thread_poo.Base.{
  ℕ, zero, suc, Bool, true, false, Option, none, some, List, [], ◌∷◌, inc64, dec64, ◌==◌, ◌>>=◌,
  if◌then◌else◌,
}
use client_worker_thread_poo.Queue.Memory.{
  Ptr, null, raw, node, value, Memory, write, load_node, load_value, free, set_next,
}

pub record Queue : Type 0 where
  pub front : Ptr
  pub rear : Ptr
  pub size : ℕ
  pub data_size : ℕ

-- sizeof(Queue) and sizeof(QueueNode)
abbrev pub sizeof_queue : ℕ
sizeof_queue = 32

abbrev pub sizeof_node : ℕ
sizeof_node = 16

-- `allocated` says whether the `malloc` of the struct succeeds.
unfoldable pub queue_init : (allocated : Bool) → ℕ → Option Queue
queue_init allocated data_size =
    if data_size == 0
    then none
    else if allocated
    then some (record { front = null; rear = null; size = 0; data_size = data_size })
    else none

unfoldable pub queue_is_empty : Option Queue → Bool
queue_is_empty none = true
queue_is_empty (some q) = q.front == null

unfoldable pub queue_size : Option Queue → ℕ
queue_size none = 0
queue_size (some q) = q.size

-- `none` is a fault; else whether it succeeds, the element copied out, the struct and the memory.
abbrev pub Outcome : Type 0 → Type 0
Outcome A = Option (Bool × Option A × Option Queue × Memory A)

-- What `queue_print` writes.
pub data Piece (A : Type 0) : Type 0 where
  is_null_message is_empty_message : Piece A
  header : ℕ → Piece A
  item : A → Piece A
  arrow newline : Piece A

-- `free` of the struct; to free what is not allocated is a misuse.
unfoldable pub free_queue : (block : Bool) → Option Bool
free_queue true = some false
free_queue false = none

module _ {A : Type 0} where
  -- The end of `queue_enqueue`: the new node `n` goes behind the last one.
  unfoldable pub link_last : Queue → Ptr → Memory A → Outcome A
  link_last q n m =
      if q.rear == null
      then some (true, none, some (record q { front = n; rear = n; size = inc64 q.size }), m)
      else set_next m q.rear n >>= λ m'.
          some (true, none, some (record q { rear = n; size = inc64 q.size }), m')

  -- `input` is `*data`, or `none` for NULL.
  unfoldable pub queue_enqueue :
      (malloc : ℕ → Memory A → Ptr) → Option Queue → (input : Option A) → Memory A → Outcome A
  queue_enqueue malloc none input m = some (false, none, none, m)
  queue_enqueue malloc (some q) none m = some (false, none, some q, m)
  queue_enqueue malloc (some q) (some a) m =
      let n = malloc sizeof_node m in
      let m₁ = write m n (some raw) in
      let d = malloc q.data_size m₁ in
      let m₂ = write m₁ d (some (value a)) in
      if n == null
      then some (false, none, some q, m)
      else if d == null
      then (free m₁ n >>= λ m₃. some (false, none, some q, m₃))
      else link_last q n (write m₂ n (some (node d null)))

  -- `wanted` says that `data` is not NULL.
  unfoldable pub queue_dequeue : Option Queue → (wanted : Bool) → Memory A → Outcome A
  queue_dequeue none wanted m = some (false, none, none, m)
  queue_dequeue (some q) wanted m =
      if queue_is_empty (some q)
      then some (false, none, some q, m)
      else (load_node m q.front >>= λ (d, next).
          (if wanted then load_value m d >>= (λ a. some (some a)) else some none) >>= λ out.
          free m d >>= λ m₁. free m₁ q.front >>= λ m₂. some (
            true,
            out,
            some (record q {
              front = next;
              rear = (if next == null then null else q.rear);
              size = dec64 q.size;
            }),
            m₂,
          ))

  unfoldable pub queue_peek : Option Queue → (wanted : Bool) → Memory A → Outcome A
  queue_peek none wanted m = some (false, none, none, m)
  queue_peek (some q) wanted m =
      if queue_is_empty (some q)
      then some (false, none, some q, m)
      else if wanted
      then (load_node m q.front >>= λ (d, next).
          load_value m d >>= λ a. some (true, some a, some q, m))
      else some (false, none, some q, m)

  -- The loop of `queue_destroy`, at most `fuel` rounds.
  unfoldable pub destroy_loop : (fuel : ℕ) → Ptr → Memory A → Option (Memory A)
  destroy_loop zero current m = none
  destroy_loop (suc fuel) current m =
      let rest = load_node m current >>= λ (d, next).
      free m d >>= λ m₁. free m₁ current >>= λ m₂. destroy_loop fuel next m₂ in
      if current == null then some m else rest

  -- `block` says that the struct is allocated.
  unfoldable pub queue_destroy :
      (fuel : ℕ) → Option Queue → (block : Bool) → Memory A → Option (Bool × Memory A)
  queue_destroy fuel none block m = some (block, m)
  queue_destroy fuel (some q) block m =
      destroy_loop fuel q.front m >>= λ m'. free_queue block >>= λ b. some (b, m')

  -- The loop of `queue_print`.
  unfoldable pub print_loop : (fuel : ℕ) → Ptr → Memory A → Option (List (Piece A))
  print_loop zero current m = none
  print_loop (suc fuel) current m =
      let rest = load_node m current >>= λ (d, next). load_value m d >>= λ a.
      print_loop fuel next m >>= λ more.
      some (item a ∷ (if next == null then more else arrow ∷ more)) in
      if current == null then some (newline ∷ []) else rest

  unfoldable pub queue_print :
      (fuel : ℕ) → Option Queue → (printer : Bool) → Memory A → Option (List (Piece A))
  queue_print fuel none printer m = some (is_null_message ∷ [])
  queue_print fuel (some q) false m = some (is_null_message ∷ [])
  queue_print fuel (some q) true m =
      if queue_is_empty (some q)
      then some (is_empty_message ∷ [])
      else print_loop fuel q.front m >>= λ more. some (header q.size ∷ more)
