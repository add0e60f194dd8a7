-- ===== src/Concurrent/Pool/Examples.antt =====
-- Runs of `ptr::pool` of src/Concurrent.hpp with its default container.
use icon.Prelude.{ℕ, ◌≡◌, refl, not, ◌&&◌, none, some, [], ◌∷◌, ◌==◌, if◌then◌else◌, arith}
use icon.Concurrent.Memory.{Ptr, Heap, Ensures}
use icon.Concurrent.Memory.Links.{has}
use icon.Concurrent.Stack.{Stack}
use icon.Concurrent.Stack.Laws.{Holds}
use icon.Concurrent.Pool.{mpmc_stack, destroy}
use icon.Concurrent.Pool.Objects.{alive, mpmc_stack_laws, destroy-frees}

-- Objects 2 and 1 are in the pool, 3 is in use, and 4 and 5 are free addresses.
abbrev three : Heap ℕ
three = record {
  cell = λ a.
      if a == 1
      then some (record { value = 10; next = 0 })
      else if a == 2
      then some (record { value = 20; next = 1 })
      else if a == 3
      then some (record { value = 30; next = 0 })
      else none;
  supply = 4 ∷ 5 ∷ [];
}

abbrev pool : Stack
pool = record { first = 2 }

pool-Holds : Holds three pool (2 ∷ 1 ∷ [])
pool-Holds = record {
  top = refl;
  linked = (omega arith, refl, refl, (omega arith, refl, refl, tt));
}

destroy-frees_example :
    Ensures
      (λ _ h. (a : Ptr) → alive (h.cell a) ≡ alive (three.cell a) && not (has a (2 ∷ 1 ∷ [])))
      (destroy (mpmc_stack ℕ) 3 pool three)
destroy-frees_example =
    destroy-frees (mpmc_stack ℕ) mpmc_stack_laws 3 three pool (2 ∷ 1 ∷ []) pool-Holds (omega arith)
