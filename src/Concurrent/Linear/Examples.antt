-- ===== src/Concurrent/Linear/Examples.antt =====
-- Runs of `concurrent::linear::stack` of src/Concurrent.hpp.
use icon.Prelude.{ℕ, ◌≡◌, refl, ◌^◌, ◌-◌, none, some, List, [], ◌∷◌, ◌==◌, if◌then◌else◌, arith}
use icon.Concurrent.Memory.{Heap, returns, Ensures}
use icon.Concurrent.Memory.Calls.{Op, put_on, take_off}
use icon.Concurrent.Linear.{Stack, pop, reverse}
use icon.Concurrent.Linear.Laws.{Holds}
use icon.Concurrent.Linear.Refine.{run, spec, Allowed, run-refines, reverse-keeps_order}

-- Nodes 1 and 2 are linked, 3 and 4 stand alone.
abbrev four : Heap ℕ
four = record {
  cell = λ a.
      if a == 1
      then some (record { value = 10; next = 2 })
      else if a == 2
      then some (record { value = 20; next = 0 })
      else if a == 3
      then some (record { value = 30; next = 0 })
      else if a == 4
      then some (record { value = 40; next = 0 })
      else none;
  supply = [];
}

abbrev two : Stack
two = record { size = 2; first = 1 }

two-Holds : Holds four two (1 ∷ 2 ∷ [])
two-Holds = record {
  top = refl;
  linked = (omega arith, refl, refl, (omega arith, refl, refl, tt));
  counted = refl;
}

abbrev calls : List Op
calls = put_on 3 ∷ take_off ∷ take_off ∷ put_on 4 ∷ []

calls-Allowed : Allowed four.cell calls (1 ∷ 2 ∷ [])
unfolding Allowed
calls-Allowed = (omega arith, ground arith, refl, (omega arith, ground arith, refl, tt))

run-refines_example :
    Ensures
      (λ r h. Holds h r.0 (spec calls (1 ∷ 2 ∷ [])).0 × (r.1 ≡ (spec calls (1 ∷ 2 ∷ [])).1))
      (run calls two four)
run-refines_example = run-refines calls four two (1 ∷ 2 ∷ []) two-Holds calls-Allowed (omega arith)

returned : (spec calls (1 ∷ 2 ∷ [])).1 ≡ 3 ∷ 1 ∷ []
unfolding spec
returned = refl

reverse-keeps_order_example :
    (reverse 5 two four ≡ returns (record { size = 0; first = 1 }) four)
    × Ensures
        (λ r h. (r.0 ≡ 1) × (r.1.size ≡ 2 ^ 64 - 1))
        (pop (record { size = 0; first = 1 }) four)
reverse-keeps_order_example = reverse-keeps_order 5 four two 1 (2 ∷ []) two-Holds

abbrev one : Stack
one = record { size = 1; first = 3 }
