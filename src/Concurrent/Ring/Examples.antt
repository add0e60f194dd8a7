-- ===== src/Concurrent/Ring/Examples.antt =====
-- A run of `spmc_queue` of src/Concurrent.hpp that grows and goes round.
use icon.Prelude.{ℕ, ◌≡◌, refl, none, some, List, [], ◌∷◌, arith}
use icon.Concurrent.Memory.{Heap, ◌>>=◌, Ensures}
use icon.Concurrent.Ring.{Queue, init_empty, set_allocation_batch}
use icon.Concurrent.Ring.Holds.{Supplied}
use icon.Concurrent.Ring.Fifo.{Call, give, take, run, spec, Holds, run-fifo}

-- No node is in use, and there are five blocks of two nodes.
abbrev free_memory : Heap ℕ
free_memory = record { cell = λ a. none; supply = 10 ∷ 20 ∷ 30 ∷ 40 ∷ 50 ∷ [] }

free_memory-Supplied : Supplied free_memory.cell 2 free_memory.supply
free_memory-Supplied = (
  omega arith,
  λ a h. refl,
  (λ a h. ground arith, (λ a h. ground arith, (λ a h. ground arith, (λ a h. ground arith, tt)))),
  (
    omega arith,
    λ a h. refl,
    (λ a h. ground arith, (λ a h. ground arith, (λ a h. ground arith, tt))),
    (
      omega arith,
      λ a h. refl,
      (λ a h. ground arith, (λ a h. ground arith, tt)),
      (omega arith, λ a h. refl, (λ a h. ground arith, tt), (omega arith, λ a h. refl, tt, tt)),
    ),
  ),
)

abbrev calls : List (Call ℕ)
calls = give 5 ∷ give 6 ∷ take ∷ give 7 ∷ give 8 ∷ take ∷ take ∷ take ∷ take ∷ []

run-fifo_example :
    Ensures
      (λ r h. Holds h r.0 (spec calls []).0 × (r.1 ≡ (spec calls []).1))
      ((init_empty 0 2 >>= run 0 calls) free_memory)
run-fifo_example =
    run-fifo 0 calls 2 free_memory (omega arith) (omega arith) (omega arith) free_memory-Supplied

returned : (spec calls []).1 ≡ some 5 ∷ some 6 ∷ some 7 ∷ some 8 ∷ none ∷ []
unfolding spec
returned = refl

batches :
    (q : Queue) → ((set_allocation_batch q 0).batch ≡ 16) × ((set_allocation_batch q 17).batch ≡ 32)
unfolding set_allocation_batch
batches q = (refl, refl)
