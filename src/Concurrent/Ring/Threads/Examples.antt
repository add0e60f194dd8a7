-- ===== src/Concurrent/Ring/Threads/Examples.antt =====
-- Concrete interleavings on a `spmc_queue` of src/Concurrent.hpp.
use icon.Prelude.{◌⊎◌, ℕ, ◌<◌, some, ◌≡◌, refl, ap, ◌∙◌, true, none, List, [], ◌∷◌, ◌++◌, arith}
use icon.Concurrent.Memory.{Ptr, put}
use icon.Concurrent.Ring.Blocks.{within}
use icon.Concurrent.Ring.Threads.{
  one_pops, any_pops, with_cycle, resting, allocating, comparing, outside, pushed, popped,
  found_empty, load_last, has_room, is_full, allocate, close, publish, store, advance, load_first,
  is_empty, has_more, read, follow, swap, After, System, update, MayPop, call_push, call_pop, gives,
  takes, init, Reach, start, later, swapping, Take,
}
use icon.Concurrent.Ring.Threads.Shape.{IsRing}
use icon.Concurrent.Ring.Threads.Fifo.{
  Reach-After, Reach-goes_on, GivesOn, TakesOn, steps_left, Reach-takes_less,
}

-- Blocks of two nodes. A `pop` of the empty queue comes between the steps of the `push` of 5. Then the ring is
-- full, and 5 is popped while the next block is hung in for 6.
contended :
    (s : System ℕ) × (s.log ≡ pushed 6 ∷ popped 5 ∷ pushed 5 ∷ found_empty ∷ [])
    × Reach one_pops 2 1 0 s
unfolding init update with_cycle put MayPop
contended = (
  _,
  refl,
  (later
      (later
        (later
          (later
            (later
              (later
                (later
                  (later
                    (later
                      (later
                        (later
                          (later
                            (later
                              (later
                                (later
                                  (later
                                    (later
                                      (later
                                        (later
                                          (later
                                            (later (later start (call_push 5 refl))
                                              (gives refl (load_last 5)))
                                            (gives refl (has_room 5 1 2 refl (omega arith))))
                                          (call_pop 0 refl refl))
                                        (takes 0 refl load_first))
                                      (takes 0 refl (is_empty 1 refl)))
                                    (gives refl (store 5 1 _ refl)))
                                  (gives refl (advance 5 1 2 refl)))
                                (call_push 6 refl))
                              (gives refl (load_last 6)))
                            (gives refl (is_full 6 2 refl)))
                          (call_pop 0 refl refl))
                        (takes 0 refl load_first))
                      (gives refl (allocate 6 2 3 0 (omega arith) (λ a. ground arith))))
                    (takes 0 refl (has_more 1 (omega arith))))
                  (gives refl (close 6 2 3 _ refl)))
                (takes 0 refl (read 1 5 refl)))
              (gives refl (publish 6 2 3 _ refl)))
            (takes 0 refl (follow 1 5 2 refl)))
          (gives refl (store 6 2 _ refl)))
        (takes 0 refl (swap 1 5 2 refl)))
      (gives refl (advance 6 2 3 refl))),
)

Reach-After_example :
    (used : List Ptr) × (free : List Ptr) × (xs : List ℕ) × After contended.0.log xs
    × IsRing contended.0.memory used free xs
Reach-After_example = Reach-After (omega arith) (omega arith) contended.2

-- Thread 0 has called `pop`, and a ring that is full is about to get its next block.
midway :
    (s : System ℕ) × (s.giver ≡ allocating 6 2) × (s.taker 0 ≡ comparing 1) × Reach one_pops 2 1 0 s
unfolding init update with_cycle put MayPop
midway = (
  _,
  refl,
  refl,
  (later
      (later
        (later
          (later
            (later
              (later
                (later
                  (later
                    (later
                      (later
                        (later (later (later start (call_push 5 refl)) (gives refl (load_last 5)))
                          (gives refl (has_room 5 1 2 refl (omega arith))))
                        (call_pop 0 refl refl))
                      (takes 0 refl load_first))
                    (takes 0 refl (is_empty 1 refl)))
                  (gives refl (store 5 1 _ refl)))
                (gives refl (advance 5 1 2 refl)))
              (call_push 6 refl))
            (gives refl (load_last 6)))
          (gives refl (is_full 6 2 refl)))
        (call_pop 0 refl refl))
      (takes 0 refl load_first)),
)

midway_fresh : (a : Ptr) → within 3 2 a ≡ true → midway.0.memory.cell a ≡ none
unfolding with_cycle put midway init
midway_fresh a h = ground (arith, h)

Reach-goes_on_example :
    ((midway.0.giver ≡ resting) ⊎ GivesOn 2 midway.0.memory midway.0.giver)
    × ((midway.0.taker 0 ≡ outside) ⊎ TakesOn midway.0.memory (midway.0.taker 0))
Reach-goes_on_example =
    Reach-goes_on 3 (omega arith) (omega arith) (omega arith) midway_fresh midway.3

-- Then thread 0 is before its exchange.
at_exchange :
    (s : System ℕ) × (s.taker 0 ≡ swapping 1 5 2) × (s.memory.first ≡ 1) × Reach one_pops 2 1 0 s
unfolding init update with_cycle put midway
at_exchange = (
  _,
  refl,
  refl,
  later
      (later (later midway.3 (takes 0 refl (has_more 1 (omega arith))))
        (takes 0 refl (read 1 5 refl)))
      (takes 0 refl (follow 1 5 2 refl)),
)

exchange :
    Take at_exchange.0.memory
      (at_exchange.0.taker 0)
      (record at_exchange.0.memory { first = 2 })
      outside
      (some (popped 5))
unfolding at_exchange init update with_cycle put midway
exchange = swap 1 5 2 refl

Reach-takes_less_example : steps_left {V = ℕ} outside < steps_left (at_exchange.0.taker 0)
Reach-takes_less_example = Reach-takes_less (omega arith) (omega arith) at_exchange.3 exchange

seven_lost :
    (xs : List ℕ)
    → ¬ After (popped 5 ∷ pushed 7 ∷ popped 6 ∷ pushed 6 ∷ popped 5 ∷ pushed 5 ∷ []) xs
seven_lost xs (ys, (zs, (ws, none_yet, five), six), seven) =
    let z : 5 ∷ zs ≡ 5 ∷ [] = five ∙ ap (λ l. l ++ (5 ∷ [])) none_yet in
    let no_more : zs ≡ [] = cc in
    let y : 6 ∷ ys ≡ 6 ∷ [] = six ∙ ap (λ l. l ++ (6 ∷ [])) no_more in
    let gone : ys ≡ [] = cc in
    let x : 5 ∷ xs ≡ 7 ∷ [] = seven ∙ ap (λ l. l ++ (7 ∷ [])) gone in ground (arith, x)

-- Two threads pop the 5 of a ring of two nodes. Once the second has it and 6 and 7 went through the ring, the first
-- finds its node in front again: it pops 5 once more, and 7 is lost.
popped_twice :
    (s : System ℕ) × (s.log ≡ popped 5 ∷ pushed 7 ∷ popped 6 ∷ pushed 6 ∷ popped 5 ∷ pushed 5 ∷ [])
    × ((xs : List ℕ) → ¬ After s.log xs)
    × Reach any_pops 2 1 0 s
unfolding init update with_cycle put MayPop
popped_twice = (
  _,
  refl,
  seven_lost,
  (later
      (later
        (later
          (later
            (later
              (later
                (later
                  (later
                    (later
                      (later
                        (later
                          (later
                            (later
                              (later
                                (later
                                  (later
                                    (later
                                      (later
                                        (later
                                          (later
                                            (later
                                              (later
                                                (later
                                                  (later
                                                    (later
                                                      (later
                                                        (later
                                                          (later
                                                            (later
                                                            (later
                                                            (later
                                                            (later (later start (call_push 5 refl))
                                                            (gives refl (load_last 5)))
                                                            (gives refl
                                                            (has_room 5 1 2 refl (omega arith))))
                                                            (gives refl (store 5 1 _ refl)))
                                                            (gives refl (advance 5 1 2 refl)))
                                                            (call_pop 1 refl tt))
                                                          (takes 1 refl load_first))
                                                        (takes 1 refl (has_more 1 (omega arith))))
                                                      (takes 1 refl (read 1 5 refl)))
                                                    (takes 1 refl (follow 1 5 2 refl)))
                                                  (call_pop 2 refl tt))
                                                (takes 2 refl load_first))
                                              (takes 2 refl (has_more 1 (omega arith))))
                                            (takes 2 refl (read 1 5 refl)))
                                          (takes 2 refl (follow 1 5 2 refl)))
                                        (takes 2 refl (swap 1 5 2 refl)))
                                      (call_push 6 refl))
                                    (gives refl (load_last 6)))
                                  (gives refl (has_room 6 2 1 refl (omega arith))))
                                (gives refl (store 6 2 _ refl)))
                              (gives refl (advance 6 2 1 refl)))
                            (call_pop 2 refl tt))
                          (takes 2 refl load_first))
                        (takes 2 refl (has_more 2 (omega arith))))
                      (takes 2 refl (read 2 6 refl)))
                    (takes 2 refl (follow 2 6 1 refl)))
                  (takes 2 refl (swap 2 6 1 refl)))
                (call_push 7 refl))
              (gives refl (load_last 7)))
            (gives refl (has_room 7 1 2 refl (omega arith))))
          (gives refl (store 7 1 _ refl)))
        (gives refl (advance 7 1 2 refl)))
      (takes 1 refl (swap 1 5 2 refl))),
)
