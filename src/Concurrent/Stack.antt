-- ===== src/Concurrent/Stack.antt =====
-- `ptr::mpsc_stack` and `ptr::mpmc_stack` of src/Concurrent.hpp where no other thread is at work: whole
-- calls, with their loops. `rounds` bounds the rounds of a loop, and `spurious` is how often the weak
-- exchange of `push` fails for no reason.
pub mod Laws
pub mod Unsafe
use icon.Prelude.{ℕ, zero, suc, Bool, true, false, ◌==◌, if◌then◌else◌}
use icon.Concurrent.Memory.{
  Ptr, null, Program, Run, returns, running, pure, continue, ◌>>=◌, ◌>>◌, get_next, set_next,
  delete,
}

-- `mpsc_stack`, and the stack of a `mpmc_stack`
pub record Stack : Type 0 where
  pub first : Ptr

-- mpsc_stack()
unfoldable pub stack : Stack
stack = record { first = null }

-- `first.compare_exchange_strong(expected, desired)`
unfoldable pub exchange : Stack → (expected desired : Ptr) → Bool × Stack
exchange s expected desired =
    if s.first == expected then (true, record { first = desired }) else (false, s)

module _ {V : Type 0} where
  -- `mpsc_stack::pop`
  unfoldable pub pop : (rounds : ℕ) → Stack → Program V (Ptr × Stack)
  unfolding exchange
  pop zero s = λ _. running
  pop (suc k) s = if s.first == null then pure (null, s) else do
    next ← get_next s.first
    elim (exchange s s.first next).0 [
      | true ↦ do set_next s.first null; pure (s.first, (exchange s s.first next).1)
      | false ↦ pop k s
    ]

  -- `mpmc_stack::pop`, which leaves `__m_next` as it is
  unfoldable pub pop_locked : (rounds : ℕ) → Stack → Program V (Ptr × Stack)
  unfolding exchange
  pop_locked zero s = λ _. running
  pop_locked (suc k) s = if s.first == null then pure (null, s) else do
    next ← get_next s.first
    elim (exchange s s.first next).0 [
      | true ↦ pure (s.first, (exchange s s.first next).1)
      | false ↦ pop_locked k s
    ]

  -- `pop_unsafe`
  unfoldable pub pop_unsafe : Stack → Program V (Ptr × Stack)
  pop_unsafe s = if s.first == null then pure (null, s) else do
    next ← get_next s.first
    set_next s.first null
    pure (s.first, record { first = next })

  -- `push`
  unfoldable pub push : (spurious : ℕ) → Stack → Ptr → Program V Stack
  unfolding exchange
  push zero s node = if node == null then pure s else do
    set_next node s.first
    expected ← get_next node
    elim (exchange s expected node).0 [
      | true ↦ pure (exchange s expected node).1
      | false ↦ λ _. running
    ]
  push (suc n) s node = elim (node == null) [
    | true ↦ pure s
    | false ↦ do set_next node s.first; set_next node s.first; push n s node
  ]

  -- `push_unsafe`
  unfoldable pub push_unsafe : Stack → Ptr → Program V Stack
  push_unsafe s node =
      if node == null then pure s else do set_next node s.first; pure (record { first = node })

  -- `push_all`, whose calls of `push` do not fail
  unfoldable pub push_all : (rounds : ℕ) → Stack → Ptr → Program V Stack
  unfolding exchange push
  push_all zero s node = λ _. running
  push_all (suc k) s node = elim (node == null) [
    | true ↦ pure s
    | false ↦ do
      next ← get_next node
      elim (exchange s null node).0 [
        | true ↦ pure (exchange s null node).1
        | false ↦ do s' ← push zero s node; push_all k s' next
      ]
  ]

  -- The loop of `push_all_unsafe`
  unfoldable pub push_each : (rounds : ℕ) → Stack → Ptr → Program V Stack
  unfolding push_unsafe
  push_each zero s node = λ _. running
  push_each (suc k) s node = do
    next ← get_next node
    s' ← push_unsafe s node
    elim (next == null) [ true ↦ pure s' | false ↦ push_each k s' next ]

  unfoldable pub push_all_unsafe : (rounds : ℕ) → Stack → Ptr → Program V Stack
  unfolding push_each
  push_all_unsafe k s node =
      if node == null
      then pure s
      else if s.first == null
      then pure (record { first = node })
      else push_each k s node

  -- ~mpsc_stack()
  unfoldable pub destroy : (rounds : ℕ) → Stack → Program V (Unit {0})
  destroy zero s = λ _. running
  destroy (suc k) s = elim (s.first == null) [
    | true ↦ pure tt
    | false ↦ do next ← get_next s.first; delete s.first; destroy k (record { first = next })
  ]

-- `pop_all`: the first node of the list, and the stack that is left. The exchange cannot fail.
unfoldable pub pop_all : Stack → Ptr × Stack
unfolding exchange
pop_all s = if s.first == null then (s.first, s) else (s.first, (exchange s s.first null).1)

-- `reverse` and `reverse_unsafe`
module _ {V : Type 0} where
  unfoldable pub reverse : (rounds : ℕ) → Stack → Program V Stack
  unfolding pop_all push_all
  reverse k s = push_all k (pop_all s).1 (pop_all s).0

  unfoldable pub reverse_unsafe : (rounds : ℕ) → Stack → Program V Stack
  unfolding pop_all push_all_unsafe
  reverse_unsafe k s = push_all_unsafe k (pop_all s).1 (pop_all s).0
