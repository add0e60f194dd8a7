-- ===== src/Concurrent/Pool.antt =====
-- `ptr::pool` of src/Concurrent.hpp: unused objects in a container, which is a parameter of the class.
pub mod Objects
mod Examples
use icon.Prelude.{ℕ, zero, suc, true, false, ◌==◌}
use icon.Concurrent.Memory.{
  Ptr, null, Heap, Program, Run, returns, running, pure, continue, ◌>>=◌, ◌>>◌, new, delete,
}
use icon.Concurrent.Stack as Stack
use icon.Concurrent.Stack.{stack, pop_locked}

-- The calls of `container_type` that `pool` makes
pub record Container (V : Type 0) : Type 1 where
  pub State : Type 0
  pub push : State → Ptr → Program V State
  pub pop : State → Program V (Ptr × State)

-- `mpmc_stack`, the container where none is named
abbrev pub mpmc_stack : (V : Type 0) → Container V
mpmc_stack V = record { State = Stack.Stack; push = Stack.push 0; pop = pop_locked 1 }

module _ {V : Type 0} (c : Container V) where
  -- `allocate`, with what the constructor of `T` makes of the arguments
  unfoldable pub allocate : (count : ℕ) → V → c.State → Program V c.State
  allocate zero v s = pure s
  allocate (suc n) v s = do p ← new v; s' ← c.push s p; allocate n v s'

  -- `get`
  unfoldable pub get : V → c.State → Program V (Ptr × c.State)
  get v s = do
    (p, s') ← c.pop s
    elim (p == null) [ false ↦ pure (p, s') | true ↦ do q ← new v; pure (q, s') ]

  -- `release`
  unfoldable pub release : c.State → Ptr → Program V c.State
  release s p = c.push s p

  -- ~pool()
  unfoldable pub destroy : (rounds : ℕ) → c.State → Program V (Unit {0})
  destroy zero s = λ _. running
  destroy (suc k) s = do
    (p, s') ← c.pop s
    elim (p == null) [ true ↦ pure tt | false ↦ do delete p; destroy k s' ]
