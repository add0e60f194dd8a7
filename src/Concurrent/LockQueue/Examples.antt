-- ===== src/Concurrent/LockQueue/Examples.antt =====
-- A `pop` of `mpmc_queue_lock` of src/Concurrent.hpp that refills the ring.
use icon.Prelude.{ℕ, ◌≡◌, refl, none, some, [], ◌∷◌, ◌==◌, if◌then◌else◌, arith}
use icon.Concurrent.Memory.{Ptr, Heap, Ensures}
use icon.Concurrent.Queue.Batches.{next_batch}
use icon.Concurrent.Ring.Holds.{Supplied}
use icon.Concurrent.LockQueue.{Queue, pop}
use icon.Concurrent.LockQueue.Refills.{HoldsBatches, pop-batches}

-- Object 2 was pushed after object 1.
abbrev objects : Heap ℕ
objects = record {
  cell = λ a.
      if a == 1
      then some (record { value = 10; next = 0 })
      else if a == 2
      then some (record { value = 20; next = 1 })
      else none;
  supply = [];
}

-- An empty ring of two nodes, and memory for two blocks more
abbrev ring : Heap Ptr
ring = record {
  cell = λ a.
      if a == 10
      then some (record { value = 0; next = 11 })
      else if a == 11
      then some (record { value = 0; next = 10 })
      else none;
  supply = 20 ∷ 30 ∷ [];
}

ring-Supplied : Supplied ring.cell 2 ring.supply
ring-Supplied = (
  omega arith,
  λ a h. ground arith,
  (λ a h. ground arith, tt),
  (omega arith, λ a h. ground arith, tt, tt),
)

abbrev pushed_two : Queue
pushed_two = record {
  producer = record { first = 2 };
  consumer = record { first = 10; last = 10; blocks = (10, 2) ∷ []; batch = 2; allocated = 2 };
}

pushed_two-HoldsBatches : HoldsBatches objects ring pushed_two (2 ∷ 1 ∷ []) []
pushed_two-HoldsBatches = record {
  fresh = record { top = refl; linked = (omega arith, refl, refl, (omega arith, refl, refl, tt)) };
  batch = record {
    holds = (
      [],
      11 ∷ [],
      record {
        ring = (omega arith, refl, refl, (omega arith, refl, refl, tt));
        front = refl;
        filled = tt;
        counted = refl;
      },
    );
    some_batch = omega arith;
    bounded = omega arith;
    enough = omega arith;
    supplied = ring-Supplied;
  };
  real = refl;
}

-- The object that was pushed last comes out first.
pop-batches_example :
    Ensures
      (λ a r. (a.0.0 ≡ 2) × HoldsBatches a.1 r a.0.1 [] (1 ∷ []))
      (pop 2 pushed_two objects ring)
unfolding next_batch
pop-batches_example =
    pop-batches 1 objects ring pushed_two (2 ∷ 1 ∷ []) [] pushed_two-HoldsBatches (omega arith)
