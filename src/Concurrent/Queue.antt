-- ===== src/Concurrent/Queue.antt =====
-- `ptr::mpsc_queue`, `ptr::mpmc_stackqueue` and `ptr::mpmc_stackqueue_lock` of src/Concurrent.hpp where
-- no other thread is at work: two stacks, of which one is filled and one is emptied.
pub mod Batches
mod Examples
use icon.Prelude.{ℕ, zero, suc, true, false, ◌==◌}
use icon.Concurrent.Memory.{Ptr, null, Program, Run, returns, pure, continue, ◌>>=◌, ◌>>◌, set_next}
use icon.Concurrent.Stack.{Stack, stack, pop, pop_locked, push, push_all, push_all_unsafe, pop_all}

pub record Queue : Type 0 where
  pub producer : Stack
  pub consumer : Stack

-- mpsc_queue()
unfoldable pub queue : Queue
unfolding stack
queue = record { producer = stack; consumer = stack }

module _ {V : Type 0} where
  -- `push` of each
  unfoldable pub enqueue : (spurious : ℕ) → Queue → Ptr → Program V Queue
  unfolding push
  enqueue n q node = do s ← push n q.producer node; pure (record q { producer = s })

  -- `mpsc_queue::pop`
  unfoldable pub dequeue : (rounds : ℕ) → Queue → Program V (Ptr × Queue)
  unfolding pop push_all_unsafe pop_all
  dequeue k q = do
    (value, c) ← pop k q.consumer
    elim (value == null) [
      | false ↦ pure (value, record q { consumer = c })
      | true ↦ do
        c' ← push_all_unsafe k c (pop_all q.producer).0
        (value', c'') ← pop k c'
        pure (value', record { producer = (pop_all q.producer).1; consumer = c'' })
    ]

  -- `mpmc_stackqueue::pop`
  unfoldable pub dequeue_shared : (rounds : ℕ) → Queue → Program V (Ptr × Queue)
  unfolding pop_locked push_all pop_all
  dequeue_shared k q = do
    (value, c) ← pop_locked k q.consumer
    elim (value == null) [
      | false ↦ pure (value, record q { consumer = c })
      | true ↦ do
        c' ← push_all k c (pop_all q.producer).0
        (value', c'') ← pop_locked k c'
        pure (value', record { producer = (pop_all q.producer).1; consumer = c'' })
    ]

  -- `mpmc_stackqueue_lock::pop`, whose `try_lock` succeeds
  unfoldable pub dequeue_locked : (rounds : ℕ) → Queue → Program V (Ptr × Queue)
  unfolding pop_locked push_all_unsafe pop_all
  dequeue_locked k q = do
    (value, c) ← pop_locked k q.consumer
    elim (value == null) [
      | false ↦ pure (value, record q { consumer = c })
      | true ↦ do
        (again, c₁) ← pop_locked k c
        elim (again == null) [
          | false ↦ pure (again, record q { consumer = c₁ })
          | true ↦ do
            c₂ ← push_all_unsafe k c₁ (pop_all q.producer).0
            (last, c₃) ← pop_locked k c₂
            let q' : Queue = record { producer = (pop_all q.producer).1; consumer = c₃ }
            elim (last == null) [
              | true ↦ pure (last, q')
              | false ↦ do set_next last null; pure (last, q')
            ]
        ]
    ]
