-- ===== src/Concurrent/SinglePool/Examples.antt =====
-- A run of `resize` of `single_pool` of src/Concurrent.hpp.
use icon.Prelude.{ℕ, refl, ◌-◌, none, some, [], ◌∷◌, leb, ◌&&◌, if◌then◌else◌, arith}
use icon.Concurrent.Memory.{Heap, Ensures}
use icon.Concurrent.Linear.{Stack}
use icon.Concurrent.Linear.Laws.{Holds}
use icon.Concurrent.SinglePool.{resize}
use icon.Concurrent.SinglePool.Resize.{Shrunk, resize-half}

-- Nodes 4, 3, 2 and 1, each linked to the next of them
abbrev chain : Heap ℕ
chain = record {
  cell = λ a. if leb 1 a && leb a 4 then some (record { value = a; next = a - 1 }) else none;
  supply = [];
}

abbrev pool : Stack
pool = record { size = 4; first = 4 }

pool-Holds : Holds chain pool (4 ∷ 3 ∷ 2 ∷ 1 ∷ [])
pool-Holds = record {
  top = refl;
  linked = (
    omega arith,
    refl,
    refl,
    (omega arith, refl, refl, (omega arith, refl, refl, (omega arith, refl, refl, tt))),
  );
  counted = refl;
}

-- Of four objects two are left, though none was asked for.
resize-half_example : Ensures (Shrunk chain (4 ∷ 3 ∷ 2 ∷ 1 ∷ []) 2) (resize 5 0 7 pool chain)
resize-half_example =
    resize-half 4 0 7 chain pool (4 ∷ 3 ∷ 2 ∷ 1 ∷ []) pool-Holds (omega arith) (omega arith)
      (omega arith)
