-- ===== src/Concurrent/LockQueue.antt =====
-- `ptr::spmc_queue_node` and `ptr::mpmc_queue_lock` of src/Concurrent.hpp where no other thread is at work.
-- The objects lie in one heap, and the nodes of the ring, whose values are their addresses, in another.
pub mod Batches
pub mod Refills
mod Examples
use icon.Prelude.{ℕ, zero, suc, true, false, Option, none, some, ◌==◌}
use icon.Concurrent.Memory.{
  Ptr, null, Heap, Program, Run, returns, fault, no_memory, running, continue, get_next, set_next,
  delete,
}
use icon.Concurrent.Stack as Stack
use icon.Concurrent.Ring as Ring

abbrev pub Both : Type 0 → Type 0 → Type 0
Both V A = Heap V → Program Ptr (A × Heap V)

abbrev pub pure : {V A : Type 0} → A → Both V A
pure a o = returns (a, o)

infixl 5 ◌>>=◌ ◌>>◌
abbrev pub ◌>>=◌ : {V A B : Type 0} → Both V A → (A → Both V B) → Both V B
m >>= f = λ o r. continue (m o r) (λ x. f x.0 x.1)

abbrev pub ◌>>◌ : {V A B : Type 0} → Both V A → Both V B → Both V B
m >> n = m >>= λ _. n

abbrev pub on_objects : {V A : Type 0} → Program V A → Both V A
on_objects m o r = elim (m o) [
  | returns a o' ↦ returns (a, o') r
  | fault ↦ fault
  | no_memory ↦ no_memory
  | running ↦ running
]

abbrev pub on_ring : {V A : Type 0} → Program Ptr A → Both V A
on_ring m o r = continue (m r) (λ a. returns (a, o))

-- A pointer that `pop` of `spmc_queue` gives, or NULL
abbrev pub or_null : Option Ptr → Ptr
or_null none = null
or_null (some p) = p

module _ {V : Type 0} where
  -- `spmc_queue_node::pop`
  unfoldable pub pop_node : (rounds : ℕ) → Ring.Queue → Both V (Ptr × Ring.Queue)
  unfolding Ring.pop
  pop_node k q = do (p, q') ← on_ring (Ring.pop k q); pure (or_null p, q')

  -- `spmc_queue_node::pop_unsafe`
  unfoldable pub pop_node_unsafe : Ring.Queue → Both V (Ptr × Ring.Queue)
  unfolding Ring.pop_unsafe
  pop_node_unsafe q = do (p, q') ← on_ring (Ring.pop_unsafe q); pure (or_null p, q')

  -- The loop of `spmc_queue_node::push_all`
  unfoldable pub push_nodes : (rounds : ℕ) → Ring.Queue → Ptr → Both V Ring.Queue
  unfolding Ring.push
  push_nodes zero q first = λ _ _. running
  push_nodes (suc k) q first = do
    next ← on_objects (get_next first)
    q' ← on_ring (Ring.push null q first)
    elim (next == null) [ true ↦ pure q' | false ↦ push_nodes k q' next ]

  -- `spmc_queue_node::push_all`
  unfoldable pub push_all_nodes : (rounds : ℕ) → Ring.Queue → Ptr → Both V Ring.Queue
  unfolding push_nodes
  push_all_nodes k q first = elim (first == null) [ true ↦ pure q | false ↦ push_nodes k q first ]

  -- ~spmc_queue_node(), before that of `spmc_queue`
  unfoldable pub delete_nodes : (rounds : ℕ) → Ring.Queue → Both V Ring.Queue
  unfolding Ring.pop_unsafe
  delete_nodes zero q = λ _ _. running
  delete_nodes (suc k) q = do
    (value, q') ← on_ring (Ring.pop_unsafe q)
    elim value [ none ↦ pure q' | some p ↦ do on_objects (delete p); delete_nodes k q' ]

-- `mpmc_queue_lock`; the producer is a `mpmc_stack`.
pub record Queue : Type 0 where
  pub producer : Stack.Stack
  pub consumer : Ring.Queue

module _ {V : Type 0} where
  -- `push`
  unfoldable pub push : (spurious : ℕ) → Queue → Ptr → Both V Queue
  unfolding Stack.push
  push n q value = do
    s ← on_objects (Stack.push n q.producer value)
    pure (record q { producer = s })

  -- `pop` from where it holds the mutex and has found the consumer empty again
  unfoldable pub refill : (rounds : ℕ) → Queue → Both V (Ptr × Queue)
  unfolding pop_node push_all_nodes Stack.pop_all
  refill k q = do
    c ← push_all_nodes k q.consumer (Stack.pop_all q.producer).0
    (value, c') ← pop_node k c
    let q' : Queue = record { producer = (Stack.pop_all q.producer).1; consumer = c' }
    elim (value == null) [
      | true ↦ pure (value, q')
      | false ↦ do on_objects (set_next value null); pure (value, q')
    ]

  -- `pop`, whose `try_lock` succeeds
  unfoldable pub pop : (rounds : ℕ) → Queue → Both V (Ptr × Queue)
  unfolding pop_node refill
  pop k q = do
    (value, c) ← pop_node k q.consumer
    elim (value == null) [
      | false ↦ pure (value, record q { consumer = c })
      | true ↦ do
        (again, c') ← pop_node k c
        elim (again == null) [
          | false ↦ pure (again, record q { consumer = c' })
          | true ↦ refill k (record q { consumer = c' })
        ]
    ]
