-- ===== src/Concurrent/SinglePool.antt =====
-- `single_pool` of src/Concurrent.hpp: unused objects on a `linear::stack`, its only field. Its copy
-- constructor makes an empty pool.
pub mod Resize
mod Examples
use icon.Prelude.{ℕ, zero, suc, ◌+◌, ◌-◌, true, false, ltb, ◌==◌, if◌then◌else◌}
use icon.Concurrent.Memory.{
  Ptr, null, Program, Run, returns, running, pure, continue, ◌>>=◌, ◌>>◌, new, delete,
}
use icon.Concurrent.Linear.{Stack, pop, push}

module _ {V : Type 0} where
  -- `allocate`
  unfoldable pub allocate : (n : ℕ) → V → Stack → Program V Stack
  unfolding push
  allocate zero v s = pure s
  allocate (suc n) v s = do p ← new v; s' ← push s p; allocate n v s'

  -- The loop of `resize` that frees, from `i` on: the size is read again in each round.
  unfoldable pub free_from : (rounds : ℕ) → (i : ℕ) → Stack → Program V Stack
  unfolding pop
  free_from zero i s = λ _. running
  free_from (suc k) i s = elim (ltb i s.size) [
    | true ↦ do (p, s') ← pop s; delete p; free_from k (i + 1) s'
    | false ↦ pure s
  ]

  unfoldable pub resize : (rounds : ℕ) → (n : ℕ) → V → Stack → Program V Stack
  unfolding allocate free_from
  resize k n v s =
      if ltb n s.size
      then free_from k n s
      else if ltb s.size n
      then allocate (n - s.size) v s
      else pure s

  -- `get`
  unfoldable pub get : V → Stack → Program V (Ptr × Stack)
  unfolding pop
  get v s = if ltb 0 s.size then pop s else (do p ← new v; pure (p, s))

  -- `release`
  unfoldable pub release : Stack → Ptr → Program V Stack
  unfolding push
  release s p = if p == null then pure s else push s p
