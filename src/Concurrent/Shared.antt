-- ===== src/Concurrent/Shared.antt =====
-- `push`, `pop` and `pop_all` of `ptr::mpsc_stack` and `ptr::mpmc_stack` of src/Concurrent.hpp, as the
-- single reads, writes and compare-and-swaps that threads can interleave.
pub mod Invariant
pub mod Moves
pub mod Linearizable
pub mod Progress
mod Examples
use icon.Prelude.{
  ℕ, ◌≡◌, ◌≢◌, Bool, true, false, ◌||◌, Option, none, some, List, [], ◌∷◌, ◌++◌, ◌==◌,
  if◌then◌else◌,
}
use icon.Concurrent.Memory.{Ptr, null}
use icon.Concurrent.Memory.Links.{has, first_or}

-- `mpsc_stack`, of which one thread, number 0, pops; `mpmc_stack`, of which any thread pops.
pub data Kind : Type 0 where
  mpsc mpmc : Kind

-- The field `first`, and `__m_next` of each node. No node is freed while threads run.
pub record Memory : Type 0 where
  pub first : Ptr
  pub next : Ptr → Ptr

unfoldable pub set_next : Memory → Ptr → Ptr → Memory
set_next m p q = record m { next = λ a. if a == p then q else m.next a }

-- Where a thread is: outside; before the read of `first`, the write of `__m_next` and the exchange of
-- `push`; before the reads of `first` and of `__m_next`, the exchange and the last write of `pop`; before
-- the read and the exchange of `pop_all`.
pub data Place : Type 0 where
  idle : Place
  push_load : (p : Ptr) → Place
  push_store : (p f : Ptr) → Place
  push_swap : (p : Ptr) → Place
  pop_load : Place
  pop_next : (v : Ptr) → Place
  pop_swap : (v n : Ptr) → Place
  pop_clear : (v : Ptr) → Place
  all_load : Place
  all_swap : (v : Ptr) → Place

-- What a call has done at its decisive step.
pub data Event : Type 0 where
  pushed : Ptr → Event
  popped : Ptr → Event
  found_empty : Event
  took_all : Ptr → Event

unfoldable pub after_pop : Kind → Ptr → Place
after_pop mpsc v = pop_clear v
after_pop mpmc v = idle

-- One step of a thread. The exchange of `push` is weak, so it may fail at any time; a failure writes what
-- `first` is into the node. The exchange of `mpmc_stack` is made under a mutex that guards nothing else.
pub data Move (k : Kind) (m : Memory) : Place → Memory → Place → Option Event → Type 0 where
  load_push : (p : Ptr) → Move k m (push_load p) m (push_store p m.first) none
  store_push : (p f : Ptr) → Move k m (push_store p f) (set_next m p f) (push_swap p) none
  swap_push :
      (p : Ptr)
      → m.first ≡ m.next p
      → Move k m (push_swap p) (record m { first = p }) idle (some (pushed p))
  fail_push : (p : Ptr) → Move k m (push_swap p) (set_next m p m.first) (push_load p) none
  load_empty : m.first ≡ null → Move k m pop_load m idle (some found_empty)
  load_pop : m.first ≢ null → Move k m pop_load m (pop_next m.first) none
  read_next : (v : Ptr) → Move k m (pop_next v) m (pop_swap v (m.next v)) none
  swap_pop :
      (v n : Ptr)
      → m.first ≡ v
      → Move k m (pop_swap v n) (record m { first = n }) (after_pop k v) (some (popped v))
  fail_pop : (v n : Ptr) → m.first ≢ v → Move k m (pop_swap v n) m pop_load none
  clear_next : (v : Ptr) → Move k m (pop_clear v) (set_next m v null) idle none
  all_empty : m.first ≡ null → Move k m all_load m idle (some found_empty)
  load_all : m.first ≢ null → Move k m all_load m (all_swap m.first) none
  swap_all :
      (v : Ptr)
      → m.first ≡ v
      → Move k m (all_swap v) (record m { first = null }) idle (some (took_all v))
  fail_all : (v : Ptr) → m.first ≢ v → Move k m (all_swap v) m all_load none

-- A stack that is a list, and whether an event can happen to it. `took_all` names the first node.
unfoldable pub happens : Event → List Ptr → Option (List Ptr)
happens (pushed p) xs = some (p ∷ xs)
happens (popped v) [] = none
happens (popped v) (x ∷ xs) = if v == x then some xs else none
happens found_empty [] = some []
happens found_empty (x ∷ xs) = none
happens (took_all v) xs = if v == first_or null xs then some [] else none

-- What a list of events, the latest first, leaves of an empty stack; `none` where one cannot happen.
unfoldable pub replay : List Event → Option (List Ptr)
unfolding happens
replay [] = some []
replay (e ∷ es) = elim (replay es) [ none ↦ none | some xs ↦ happens e xs ]

abbrev pub contents : List Event → List Ptr
contents es = elim (replay es) [ none ↦ [] | some xs ↦ xs ]

-- The node that a thread works on alone
unfoldable pub holds : Place → Ptr → Bool
holds idle a = false
holds (push_load p) a = a == p
holds (push_store p f) a = a == p
holds (push_swap p) a = a == p
holds pop_load a = false
holds (pop_next v) a = false
holds (pop_swap v n) a = false
holds (pop_clear v) a = a == v
holds all_load a = false
holds (all_swap v) a = false

-- Any number of threads on one stack, and the events so far.
pub record System : Type 0 where
  pub memory : Memory
  pub place : ℕ → Place
  pub log : List Event

unfoldable pub update : (ℕ → Place) → ℕ → Place → ℕ → Place
update f i x j = if j == i then x else f j

abbrev pub note : Option Event → List Event → List Event
note none es = es
note (some e) es = e ∷ es

unfoldable pub MayPop : Kind → ℕ → Type 0
MayPop mpsc i = i ≡ 0
MayPop mpmc i = Unit {0}

-- A thread calls an operation or makes its next step. A node that is pushed is not NULL, not in the stack,
-- and not in the hands of another call.
pub data Step (k : Kind) (s : System) : System → Type 0 where
  call_push :
      (i : ℕ) (p : Ptr)
      → s.place i ≡ idle
      → p ≢ null
      → has p (contents s.log) ≡ false
      → ((j : ℕ) → holds (s.place j) p ≡ false)
      → Step k s (record s { place = update s.place i (push_load p) })
  call_pop :
      (i : ℕ)
      → s.place i ≡ idle
      → MayPop k i
      → Step k s (record s { place = update s.place i pop_load })
  call_all :
      (i : ℕ)
      → s.place i ≡ idle
      → MayPop k i
      → Step k s (record s { place = update s.place i all_load })
  move :
      (i : ℕ) {x x' : Place} {m' : Memory} {e : Option Event}
      → s.place i ≡ x
      → Move k s.memory x m' x' e
      → Step k s (record { memory = m'; place = update s.place i x'; log = note e s.log })

-- An empty stack, and every thread outside.
unfoldable pub init : (Ptr → Ptr) → System
init next = record { memory = record { first = null; next = next }; place = λ _. idle; log = [] }

pub data Reach (k : Kind) (next : Ptr → Ptr) : System → Type 0 where
  start : Reach k next (init next)
  later : {s t : System} → Reach k next s → Step k s t → Reach k next t
