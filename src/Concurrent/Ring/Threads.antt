-- ===== src/Concurrent/Ring/Threads.antt =====
-- `push` and `pop` of `spmc_queue` in src/Concurrent.hpp, as the single reads, writes and exchanges that one
-- thread that pushes and any number that pop can interleave. A read of a field that no other thread writes
-- then is one step with what comes next. The list of blocks and the count `allocated`, which no step reads, are
-- left out.
pub mod Shape
pub mod Growing
pub mod Moves
pub mod Takes
pub mod Fifo
mod Examples
use icon.Prelude.{
  ℕ, ◌+◌, ◌-◌, ◌%◌, ◌≡◌, ◌≢◌, true, Option, none, some, List, [], ◌∷◌, ◌++◌, ◌==◌, if◌then◌else◌,
}
use icon.Concurrent.Memory.{Ptr, null, Node, put}
use icon.Concurrent.Memory.Links.{next_of}
use icon.Concurrent.Ring.Blocks.{within}
use icon.Concurrent.Ring.Growth.{value_of}

-- Whether thread 0 alone pops, or any thread
pub data Kind : Type 0 where
  one_pops any_pops : Kind

-- The fields `first` and `last`, and the nodes
pub record Memory (V : Type 0) : Type 0 where
  pub first : Ptr
  pub last : Ptr
  pub cell : Ptr → Option (Node V)

-- Where the thread is that pushes: outside; before the read of `last`; before the test whether the ring is
-- full; before the new block, the write of its last node, and that of the last node of the ring; before the
-- writes of the value and of `last`.
pub data Giver (V : Type 0) : Type 0 where
  resting : Giver V
  loading : (v : V) → Giver V
  checking : (v : V) (l : Ptr) → Giver V
  allocating : (v : V) (l : Ptr) → Giver V
  closing : (v : V) (l b : Ptr) → Giver V
  publishing : (v : V) (l b : Ptr) → Giver V
  storing : (v : V) (l : Ptr) → Giver V
  advancing : (v : V) (l : Ptr) → Giver V

-- Where a thread is that pops: outside; before the reads of `first`, of `last`, of the value and of
-- `__m_next`, and before the exchange.
pub data Taker (V : Type 0) : Type 0 where
  outside : Taker V
  looking : Taker V
  comparing : (f : Ptr) → Taker V
  reading : (f : Ptr) → Taker V
  following : (f : Ptr) (x : V) → Taker V
  swapping : (f : Ptr) (x : V) (n : Ptr) → Taker V

-- What a call has done at its decisive step
pub data Event (V : Type 0) : Type 0 where
  pushed : V → Event V
  popped : V → Event V
  found_empty : Event V

-- `create_new_empty_cycle`, of nodes that no other thread knows yet
unfoldable pub with_cycle :
    {V : Type 0} → (Ptr → Option (Node V)) → (b size : ℕ) → V → Ptr → Option (Node V)
with_cycle cell b size d a =
    if within b size a then some (record { value = d; next = b + (a - b + 1) % size }) else cell a

module _ {V : Type 0} where
  -- A step of `push`. `size` is the allocation batch; `new` may give any nodes that are not there.
  pub data Give (size : ℕ) (m : Memory V)
      : Giver V → Memory V → Giver V → Option (Event V) → Type 0 where
    load_last : (v : V) → Give size m (loading v) m (checking v m.last) none
    has_room :
        (v : V) (l n : Ptr)
        → next_of (m.cell l) ≡ some n
        → n ≢ m.first
        → Give size m (checking v l) m (storing v l) none
    is_full :
        (v : V) (l : Ptr)
        → next_of (m.cell l) ≡ some m.first
        → Give size m (checking v l) m (allocating v l) none
    allocate :
        (v : V) (l b : Ptr) (d : V)
        → b ≢ null
        → ((a : Ptr) → within b size a ≡ true → m.cell a ≡ none)
        → Give size m
            (allocating v l)
            (record m { cell = with_cycle m.cell b size d })
            (closing v l b)
            none
    close :
        (v : V) (l b : Ptr) (n : Node V)
        → m.cell (b + (size - 1)) ≡ some n
        → Give size m
            (closing v l b)
            (record m { cell = put m.cell (b + (size - 1)) (some (record n { next = m.first })) })
            (publishing v l b)
            none
    publish :
        (v : V) (l b : Ptr) (n : Node V)
        → m.cell l ≡ some n
        → Give size m
            (publishing v l b)
            (record m { cell = put m.cell l (some (record n { next = b })) })
            (storing v l)
            none
    store :
        (v : V) (l : Ptr) (n : Node V)
        → m.cell l ≡ some n
        → Give size m
            (storing v l)
            (record m { cell = put m.cell l (some (record n { value = v })) })
            (advancing v l)
            none
    advance :
        (v : V) (l n : Ptr)
        → next_of (m.cell l) ≡ some n
        → Give size m (advancing v l) (record m { last = n }) resting (some (pushed v))

  -- A step of `pop`
  pub data Take (m : Memory V) : Taker V → Memory V → Taker V → Option (Event V) → Type 0 where
    load_first : Take m looking m (comparing m.first) none
    is_empty : (f : Ptr) → f ≡ m.last → Take m (comparing f) m outside (some found_empty)
    has_more : (f : Ptr) → f ≢ m.last → Take m (comparing f) m (reading f) none
    read :
        (f : Ptr) (x : V) → value_of (m.cell f) ≡ some x → Take m (reading f) m (following f x) none
    follow :
        (f : Ptr) (x : V) (n : Ptr)
        → next_of (m.cell f) ≡ some n
        → Take m (following f x) m (swapping f x n) none
    swap :
        (f : Ptr) (x : V) (n : Ptr)
        → m.first ≡ f
        → Take m (swapping f x n) (record m { first = n }) outside (some (popped x))
    fail : (f : Ptr) (x : V) (n : Ptr) → m.first ≢ f → Take m (swapping f x n) m looking none

-- A list to which `push` appends and from which `pop` takes the first is `xs` after these events, the
-- latest first.
abbrev pub After : {V : Type 0} → List (Event V) → List V → Type 0
After [] xs = xs ≡ []
After {V} (pushed v ∷ es) xs = (ys : List V) × After es ys × (xs ≡ ys ++ (v ∷ []))
After (popped v ∷ es) xs = After es (v ∷ xs)
After (found_empty ∷ es) xs = After es [] × (xs ≡ [])

-- The threads and the events so far
pub record System (V : Type 0) : Type 0 where
  pub memory : Memory V
  pub giver : Giver V
  pub taker : ℕ → Taker V
  pub log : List (Event V)

unfoldable pub update : {V : Type 0} → (ℕ → Taker V) → ℕ → Taker V → ℕ → Taker V
update f i x j = if j == i then x else f j

abbrev pub note : {V : Type 0} → Option (Event V) → List (Event V) → List (Event V)
note none es = es
note (some e) es = e ∷ es

unfoldable pub MayPop : Kind → ℕ → Type 0
MayPop one_pops i = i ≡ 0
MayPop any_pops i = Unit {0}

module _ {V : Type 0} where
  -- A thread calls `push` or `pop`, or makes its next step.
  pub data Step (k : Kind) (size : ℕ) (s : System V) : System V → Type 0 where
    call_push : (v : V) → s.giver ≡ resting → Step k size s (record s { giver = loading v })
    call_pop :
        (i : ℕ)
        → s.taker i ≡ outside
        → MayPop k i
        → Step k size s (record s { taker = update s.taker i looking })
    gives :
        {x x' : Giver V} {m' : Memory V} {e : Option (Event V)}
        → s.giver ≡ x
        → Give size s.memory x m' x' e
        → Step k size s (record s { memory = m'; giver = x'; log = note e s.log })
    takes :
        (i : ℕ) {x x' : Taker V} {m' : Memory V} {e : Option (Event V)}
        → s.taker i ≡ x
        → Take s.memory x m' x' e
        → Step k size s (record s { memory = m'; taker = update s.taker i x'; log = note e s.log })

  -- The queue as it is constructed, with its first block at `b` of memory that has no other node
  unfoldable pub init : (b size : ℕ) → V → System V
  unfolding with_cycle
  init b size d = record {
    memory = record { first = b; last = b; cell = with_cycle (λ _. none) b size d };
    giver = resting;
    taker = λ _. outside;
    log = [];
  }

  pub data Reach (k : Kind) (size b : ℕ) (d : V) : System V → Type 0 where
    start : Reach k size b d (init b size d)
    later : {s t : System V} → Reach k size b d s → Step k size s t → Reach k size b d t
