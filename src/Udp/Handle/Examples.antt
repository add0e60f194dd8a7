-- ===== src/Udp/Handle/Examples.antt =====
-- Objects `udp::Endpoint` of src/UDP.cpp in use.
use icon.Prelude.{
  ◌⊎◌, ◌≢◌, ℕ, ◌≡◌, refl, inr, false, none, some, List, [], ◌∷◌, ◌==◌, if◌then◌else◌, arith,
}
use icon.Udp.Handle.{
  Heap, put, make_empty, make, of_global, copy, move, release, destroy, assign, World, Op, makes,
  constructs, copies, assigns, destroys, placed, apply, run,
}
use icon.Udp.Handle.Ownership.{owned, IsOwned}
use icon.Udp.Handle.Runs.{AllowedEach, run-IsOwned}

-- Boost's endpoints are ports here. One stands at address 9, outside of all objects.
abbrev outside : Heap ℕ
outside p = if p == 9 then some 8080 else none

-- Object 1 refers to the one outside, 2 owns a copy of it, 3 owns another endpoint and is assigned from 2; then all go.
abbrev use_all : List (Op ℕ)
use_all =
    makes 1 9
    ∷ copies 2 1 4
    ∷ constructs 3 53 5
    ∷ assigns 3 2 5
    ∷ destroys 2
    ∷ destroys 3
    ∷ destroys 1
    ∷ []

use_all-Allowed :
    AllowedEach outside (some (record { heap = outside; handles = λ i. none })) use_all
unfolding apply placed make of_global copy assign release destroy put owned
use_all-Allowed = (
  (refl, λ z. cc),
  (
    (refl, (make 9, refl, omega arith), omega arith, refl),
    (
      (refl, omega arith, refl),
      (
        (
          (omega arith),
          (λ z. cc),
          (record { ptr = 4; ref = false }, refl, omega arith),
          omega arith,
          inr refl,
        ),
        ((λ z. cc), ((λ z. cc), ((λ z. cc), tt))),
      ),
    ),
  ),
)

run-IsOwned_example :
    (w : World ℕ) × (run use_all (record { heap = outside; handles = λ i. none }) ≡ some w)
    × IsOwned outside w
    × ((p : ℕ) → (w.heap p ≡ outside p) ⊎ (p ≢ 0) × ((i : ℕ) × (owned (w.handles i) ≡ p)))
run-IsOwned_example = run-IsOwned outside use_all refl use_all-Allowed

abbrev one_there : Heap ℕ
one_there p = if p == 4 then some 53 else none

-- The move constructor leaves the pointer in both objects: the second destructor deletes what is gone.
deleted_twice :
    (h : Heap ℕ) × (destroy (move (record { ptr = 4; ref = false })).0 one_there ≡ some h)
    × (destroy (move (record { ptr = 4; ref = false })).1 h ≡ none)
unfolding move destroy release put
deleted_twice = (_, refl, refl)

-- An object that is assigned from itself reads what it has just deleted, and no copy of an empty object can be made.
assigned_from_itself :
    assign (record { ptr = 4; ref = false }) (record { ptr = 4; ref = false }) 5 one_there ≡ none
unfolding assign copy release put
assigned_from_itself = refl

copied_empty : copy make_empty 5 one_there ≡ none
unfolding copy make_empty
copied_empty = refl
