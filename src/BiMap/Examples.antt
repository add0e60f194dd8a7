-- ===== src/BiMap/Examples.antt =====
-- A map of two pairs, and the theorems at it.
use icon.Prelude.{ℕ, ◌≡◌, refl, none, some, [], ◌∷◌}
use icon.Prelude.Map.{find, assign, erase}
use icon.BiMap.{BiMap, erase_a, erase_b, insert}
use icon.BiMap.Bijection.{without, IsBijection, insert-IsBijection, erase-IsBijection}
use mathlib.Core.Logic.{ite}
use native.Mathlib.Decide.{ℕ_discrete}

abbrev blank : BiMap ℕ ℕ
blank = record { temp1 = 0; temp2 = 0; t1t2 = []; t2t1 = [] }

abbrev one : BiMap ℕ ℕ
one = insert ℕ_discrete ℕ_discrete blank 10 2

blank-IsBijection : IsBijection ℕ_discrete ℕ_discrete blank
unfolding find
blank-IsBijection = record { there = λ a b e. cc; back = λ a b e. cc }

one-IsBijection : IsBijection ℕ_discrete ℕ_discrete one
one-IsBijection = (insert-IsBijection ℕ_discrete ℕ_discrete blank 10 2 blank-IsBijection).0

-- A second insertion at the same id frees the first endpoint.
moved :
    insert ℕ_discrete ℕ_discrete one 11 2
    ≡ record { temp1 = 0; temp2 = 0; t1t2 = (11, 2) ∷ []; t2t1 = (2, 11) ∷ [] }
unfolding insert erase_a erase_b find assign erase ℕ_discrete
moved = refl

insert-IsBijection_example :
    IsBijection ℕ_discrete ℕ_discrete (insert ℕ_discrete ℕ_discrete one 11 2)
    × ((x : ℕ)
        → find ℕ_discrete (insert ℕ_discrete ℕ_discrete one 11 2).t1t2 x
          ≡ ite (ℕ_discrete 11 x) (some 2) (without ℕ_discrete 2 (find ℕ_discrete one.t1t2 x)))
    × ((y : ℕ)
        → find ℕ_discrete (insert ℕ_discrete ℕ_discrete one 11 2).t2t1 y
          ≡ ite (ℕ_discrete 2 y) (some 11) (without ℕ_discrete 11 (find ℕ_discrete one.t2t1 y)))
insert-IsBijection_example = insert-IsBijection ℕ_discrete ℕ_discrete one 11 2 one-IsBijection

erase-IsBijection_example :
    IsBijection ℕ_discrete ℕ_discrete (erase_a ℕ_discrete ℕ_discrete one 10)
    × ((x : ℕ)
        → find ℕ_discrete (erase_a ℕ_discrete ℕ_discrete one 10).t1t2 x
          ≡ ite (ℕ_discrete 10 x) none (find ℕ_discrete one.t1t2 x))
    × ((y : ℕ)
        → find ℕ_discrete (erase_a ℕ_discrete ℕ_discrete one 10).t2t1 y
          ≡ without ℕ_discrete 10 (find ℕ_discrete one.t2t1 y))
    × IsBijection ℕ_discrete ℕ_discrete (erase_b ℕ_discrete ℕ_discrete one 3)
    × ((y : ℕ)
        → find ℕ_discrete (erase_b ℕ_discrete ℕ_discrete one 3).t2t1 y
          ≡ ite (ℕ_discrete 3 y) none (find ℕ_discrete one.t2t1 y))
    × ((x : ℕ)
        → find ℕ_discrete (erase_b ℕ_discrete ℕ_discrete one 3).t1t2 x
          ≡ without ℕ_discrete 3 (find ℕ_discrete one.t1t2 x))
erase-IsBijection_example = erase-IsBijection ℕ_discrete ℕ_discrete one 10 3 one-IsBijection
