-- ===== src/Concurrent/Queue/Examples.antt =====
-- Runs of `mpsc_queue` and `mpsc_stack` of src/Concurrent.hpp.
use icon.Prelude.{ℕ, ◌≡◌, refl, none, some, List, [], ◌∷◌, leb, ◌==◌, ◌&&◌, if◌then◌else◌, arith}
use icon.Concurrent.Memory.{Heap, Ensures, returns, get_next, set_next, put}
use icon.Concurrent.Memory.Calls.{Op, put_on, take_off}
use icon.Concurrent.Stack.{Stack, pop, push_unsafe, push_all_unsafe, push_each}
use icon.Concurrent.Stack.Laws.{Holds, pop-Holds}
use icon.Concurrent.Queue.{Queue}
use icon.Concurrent.Queue.Batches.{HoldsBatches, run, spec, Allowed, next_batch, run-batches}

-- Node 2 is linked to node 1, and 3 and 4 stand alone.
abbrev four : Heap ℕ
four = record {
  cell = λ a.
      if leb 1 a && leb a 4
      then some (record { value = a; next = if a == 2 then 1 else 0 })
      else none;
  supply = [];
}

abbrev calls : List Op
calls = put_on 3 ∷ put_on 4 ∷ take_off ∷ take_off ∷ take_off ∷ take_off ∷ take_off ∷ []

abbrev batch : Stack
batch = record { first = 2 }

batch-Holds : Holds four batch (2 ∷ 1 ∷ [])
batch-Holds = record {
  top = refl;
  linked = (omega arith, refl, refl, (omega arith, refl, refl, tt));
}

abbrev queue_of_two : Queue
queue_of_two = record { producer = record { first = 0 }; consumer = batch }

queue-HoldsBatches : HoldsBatches four queue_of_two [] (2 ∷ 1 ∷ [])
queue-HoldsBatches = record {
  fresh = record { top = refl; linked = tt };
  batch = batch-Holds;
  apart = tt;
}

calls-Allowed : Allowed four.cell calls [] (2 ∷ 1 ∷ [])
unfolding Allowed next_batch
calls-Allowed = (omega arith, ground arith, refl, refl, (omega arith, ground arith, refl, refl, tt))

run-batches_example :
    Ensures
      (λ r h.
        HoldsBatches h r.0 (spec calls [] (2 ∷ 1 ∷ [])).0.0 (spec calls [] (2 ∷ 1 ∷ [])).0.1
        × (r.1 ≡ (spec calls [] (2 ∷ 1 ∷ [])).1))
      (run calls queue_of_two four)
run-batches_example =
    run-batches calls four queue_of_two [] (2 ∷ 1 ∷ []) queue-HoldsBatches calls-Allowed

-- Node 4 was pushed after node 3 and comes out before it.
returned : (spec calls [] (2 ∷ 1 ∷ [])).1 ≡ 2 ∷ 1 ∷ 4 ∷ 3 ∷ 0 ∷ []
unfolding spec next_batch
returned = refl

pop-Holds_example : Ensures (λ r h. (r.0 ≡ 2) × Holds h r.1 (1 ∷ [])) (pop 1 batch four)
pop-Holds_example = pop-Holds 0 four batch 2 (1 ∷ []) batch-Holds

-- Nodes 3 and 4 in a list of their own, pushed onto a stack of two
abbrev two_lists : Heap ℕ
two_lists = record {
  cell = λ a.
      if leb 1 a && leb a 4
      then some (record { value = a; next = if a == 2 then 1 else if a == 3 then 4 else 0 })
      else none;
  supply = [];
}

abbrev pushed : (s : Stack) × (h : Heap ℕ) × (push_all_unsafe 2 batch 3 two_lists ≡ returns s h)
unfolding push_all_unsafe push_each push_unsafe get_next set_next put
pushed = (_, _, refl)
