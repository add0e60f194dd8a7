-- ===== src/Concurrent/Shared/Examples.antt =====
-- Concrete interleavings on the stacks of src/Concurrent.hpp.
use icon.Prelude.{◌⊎◌, ◌≡◌, refl, some, [], ◌∷◌, arith}
use icon.Concurrent.Memory.{Ptr}
use icon.Concurrent.Shared.{
  mpmc, push_load, set_next, System, pushed, replay, happens, holds, update, load_push, store_push,
  swap_push, fail_push, load_pop, read_next, swap_pop, after_pop, call_push, call_pop, move, MayPop,
  Reach, start, later, init,
}
use icon.Concurrent.Shared.Progress.{
  Solo, rest, then_move, Pushing, before_load, Pushed, Ends, push-finishes,
}

abbrev unlinked : Ptr → Ptr
unlinked a = 0

abbrev ready : System
ready = record {
  memory = record { first = 8; next = unlinked };
  place = λ i. push_load 7;
  log = pushed 8 ∷ [];
}

-- Thread 3 alone reads `first`, writes it into node 7, and its exchange fails.
retried : (t : System) × (t.place 3 ≡ push_load 7) × Solo mpmc 3 ready 3 t
unfolding update set_next
retried = (
  _,
  refl,
  then_move (then_move (then_move rest refl (load_push 7)) refl (store_push 7 8)) refl
      (fail_push 7),
)

push-finishes_example :
    Pushed 3 7 (pushed 8 ∷ []) retried.0
    ⊎ ((retried.0.log ≡ pushed 8 ∷ [])
        × Pushing 7 (retried.0.place 3)
        × Ends mpmc 3 7 (pushed 8 ∷ []) 5 retried.0)
push-finishes_example = push-finishes mpmc 3 7 3 ready retried.0 before_load retried.2

-- On a `mpmc_stack` the exchange of `pop` compares addresses alone. Thread 1 is about to pop node 1, with 2
-- behind it; thread 2 pops 1 and 2 and pushes 1 again; then thread 1 pops 1 and makes 2 the first node,
-- though it is not in the stack any more and thread 2 has it.
popped_twice :
    (s : System) × (replay s.log ≡ some []) × (s.memory.first ≡ 2) × Reach mpmc unlinked s
unfolding init holds update set_next replay happens MayPop after_pop
popped_twice = (
  _,
  refl,
  refl,
  later
      (later
        (later
          (later
            (later
              (later
                (later
                  (later
                    (later
                      (later
                        (later
                          (later
                            (later
                              (later
                                (later
                                  (later
                                    (later
                                      (later
                                        (later
                                          (later
                                            (later
                                              (later
                                                (later
                                                  (later start (
                                                    call_push 1 2 refl (omega arith) refl
                                                      (λ j. ground arith)))
                                                  (move 1 refl (load_push 2)))
                                                (move 1 refl (store_push 2 0)))
                                              (move 1 refl (swap_push 2 refl)))
                                            (call_push 1 1 refl (omega arith) refl
                                              (λ j. ground arith)))
                                          (move 1 refl (load_push 1)))
                                        (move 1 refl (store_push 1 2)))
                                      (move 1 refl (swap_push 1 refl)))
                                    (call_pop 1 refl tt))
                                  (move 1 refl (load_pop (omega arith))))
                                (move 1 refl (read_next 1)))
                              (call_pop 2 refl tt))
                            (move 2 refl (load_pop (omega arith))))
                          (move 2 refl (read_next 1)))
                        (move 2 refl (swap_pop 1 2 refl)))
                      (call_pop 2 refl tt))
                    (move 2 refl (load_pop (omega arith))))
                  (move 2 refl (read_next 2)))
                (move 2 refl (swap_pop 2 0 refl)))
              (call_push 2 1 refl (omega arith) refl (λ j. ground arith)))
            (move 2 refl (load_push 1)))
          (move 2 refl (store_push 1 0)))
        (move 2 refl (swap_push 1 refl)))
      (move 1 refl (swap_pop 1 2 refl)),
)
