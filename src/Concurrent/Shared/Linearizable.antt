-- ===== src/Concurrent/Shared/Linearizable.antt =====
-- What any interleaving of threads does to a `mpsc_stack`.
use icon.Prelude.{ℕ, ◌≡◌, List, true, false}
use icon.Concurrent.Memory.{Ptr, null}
use icon.Concurrent.Memory.Links.{has, first_or}
use icon.Concurrent.Shared.{System, holds}
use icon.Concurrent.Shared.Invariant.{Chain}

-- What the memory and the places of the threads are, where the stack is `xs`: `first` and the fields
-- `__m_next` lead through exactly `xs`, no thread holds a node of it, and no two hold the same.
pub record IsStack (s : System) (xs : List Ptr) : Type 0 where
  pub top : s.memory.first ≡ first_or null xs
  pub chain : Chain s.memory.next xs
  pub apart : (i : ℕ) (p : Ptr) → holds (s.place i) p ≡ true → has p xs ≡ false
  pub alone : (i j : ℕ) (p : Ptr) → holds (s.place i) p ≡ true → holds (s.place j) p ≡ true → i ≡ j
