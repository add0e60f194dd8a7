-- ===== src/Concurrent/Linear.antt =====
-- `concurrent::linear::stack` of src/Concurrent.hpp: a stack with its size, for one thread. Loops are
-- given the number of their rounds.
pub mod Laws
pub mod Refine
mod Examples
use icon.Prelude.{ℕ, zero, suc, ◌+◌, ◌-◌, ◌^◌, true, false, ◌==◌, if◌then◌else◌}
use icon.NumberBuffer.{u64}
use icon.Concurrent.Memory.{
  Ptr, null, Program, Run, returns, running, pure, continue, ◌>>=◌, ◌>>◌, get_next, set_next,
  delete,
}

pub record Stack : Type 0 where
  pub size : ℕ
  pub first : Ptr

-- stack()
unfoldable pub stack : Stack
stack = record { size = 0; first = null }

-- stack(stack&&), which leaves `other` as it is
unfoldable pub move_from : Stack → Stack
move_from other = record { size = other.size; first = other.first }

-- `pop_all`: the first node of the list, and the stack that is left
unfoldable pub pop_all : Stack → Ptr × Stack
pop_all s = (s.first, record { size = 0; first = null })

module _ {V : Type 0} where
  unfoldable pub pop : Stack → Program V (Ptr × Stack)
  pop s = if s.first == null then pure (null, s) else do
    next ← get_next s.first
    set_next s.first null
    pure (s.first, record { size = u64 (s.size + 2 ^ 64 - 1); first = next })

  unfoldable pub push : Stack → Ptr → Program V Stack
  push s new_node =
      if new_node == null
      then pure s
      else do set_next new_node s.first; pure (record { size = u64 (s.size + 1); first = new_node })

  -- `push_all(T*)`: the first node is read before it is tested.
  unfoldable pub push_all : (rounds : ℕ) → Stack → Ptr → Program V Stack
  unfolding push
  push_all zero s node = λ _. running
  push_all (suc k) s node = do
    next ← get_next node
    s' ← push s node
    elim (next == null) [ true ↦ pure s' | false ↦ push_all k s' next ]

  -- `push_all(T*, size_t)`
  unfoldable pub push_counted : (rounds : ℕ) → Stack → Ptr → (count : ℕ) → Program V Stack
  unfolding push_all
  push_counted k s node count =
      if node == null
      then pure s
      else if s.first == null
      then pure (record { size = count; first = node })
      else push_all k s node

  -- `reverse`: the size is read again after `pop_all` has set it.
  unfoldable pub reverse : (rounds : ℕ) → Stack → Program V Stack
  unfolding push_counted pop_all
  reverse k s = let (all, s') = pop_all s in push_counted k s' all s'.size

  -- ~stack()
  unfoldable pub destroy : (rounds : ℕ) → Ptr → Program V (Unit {0})
  destroy zero first = λ _. running
  destroy (suc k) first = elim (first == null) [
    | true ↦ pure tt
    | false ↦ do next ← get_next first; delete first; destroy k next
  ]

-- `swap`
unfoldable pub swap : Stack → Stack → Stack × Stack
swap a b = (record { size = b.size; first = b.first }, record { size = a.size; first = a.first })
