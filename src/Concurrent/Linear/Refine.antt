-- ===== src/Concurrent/Linear/Refine.antt =====
-- `concurrent::linear::stack` against a stack that is a list.
use icon.Prelude.{
  ℕ, ◌+◌, ◌-◌, ◌^◌, ◌<◌, ◌≡◌, refl, ap, ◌≢◌, false, Option, none, List, [], ◌∷◌, length, arith,
}
use icon.Concurrent.Memory.{Ptr, null, Node, Heap, returns, Program, pure, ◌>>=◌, Ensures}
use icon.Concurrent.Memory.Links.{has, first_or, next_of, node_at, Ensures-mono}
use icon.Concurrent.Memory.Calls.{Op, put_on, take_off, Keeps, Keeps-put, node_of, with_reply}
use icon.Concurrent.Linear.{Stack, pop, push, reverse, push_counted, pop_all}
use icon.Concurrent.Linear.Laws.{Holds, push-runs, pushed, popped, pop-empty, pop-runs}

-- The calls, with what each `pop` returns.
unfoldable pub run : {V : Type 0} → List Op → Stack → Program V (Stack × List Ptr)
run [] s = pure (s, [])
run (put_on p ∷ ops) s = do s' ← push s p; run ops s'
run (take_off ∷ ops) s = do (p, s') ← pop s; (last, out) ← run ops s'; pure (last, p ∷ out)

-- The same calls on a list.
unfoldable pub spec : List Op → List Ptr → List Ptr × List Ptr
spec [] xs = (xs, [])
spec (put_on p ∷ ops) xs = spec ops (p ∷ xs)
spec (take_off ∷ ops) [] = let (last, out) = spec ops [] in (last, null ∷ out)
spec (take_off ∷ ops) (x ∷ xs) = let (last, out) = spec ops xs in (last, x ∷ out)

-- What is pushed is a node that is not in the stack then.
unfoldable pub Allowed : {V : Type 0} → (Ptr → Option (Node V)) → List Op → List Ptr → Type 0
Allowed cell [] xs = Unit {0}
Allowed cell (put_on p ∷ ops) xs =
    (p ≢ null) × (next_of (cell p) ≢ none) × (has p xs ≡ false) × Allowed cell ops (p ∷ xs)
Allowed cell (take_off ∷ ops) [] = Allowed cell ops []
Allowed cell (take_off ∷ ops) (x ∷ xs) = Allowed cell ops xs

module _ {V : Type 0} where
  refines :
      (ops : List Op) (before : Ptr → Option (Node V)) (h : Heap V) (s : Stack) (xs : List Ptr)
      → Holds h s xs
      → Keeps before h.cell
      → Allowed before ops xs
      → length xs + length ops < 2 ^ 64
      → Ensures (λ r h'. Holds h' r.0 (spec ops xs).0 × (r.1 ≡ (spec ops xs).1)) (run ops s h)
  unfolding run spec Allowed
  refines [] before h s xs is keeps allowed room = (is, refl)
  refines (put_on p ∷ ops) before h s xs is keeps (ne, node, new, allowed) room =
      let (n, there) = node_of (h.cell p) (keeps p node) in
      rw (push-runs h s p n ne there) (
        refines ops before _ _ (p ∷ xs) (pushed h s xs p n is ne new (omega arith))
          (Keeps-put before h.cell p _ keeps) allowed (omega arith))
  refines (take_off ∷ ops) before h s [] is keeps allowed room = rw (pop-empty h s is.top) (
      with_reply null _ (run ops s h) (
        Ensures-mono (run ops s h) (refines ops before h s [] is keeps allowed (omega arith))
          (λ r h' q. (q.0, ap (λ out. null ∷ out) q.1))))
  refines (take_off ∷ ops) before h s (x ∷ xs) is keeps allowed room =
      let (n, there, e) = node_at (h.cell x) (first_or null xs) is.linked.2 in
      let (runs, is') = popped h s x xs n is there (omega arith) in
      rw runs (
        with_reply x _ (run ops _ _) (
          Ensures-mono (run ops _ _)
            (refines ops before _ _ xs is' (Keeps-put before h.cell x _ keeps) allowed
              (omega arith))
            (λ r h' q. (q.0, ap (λ out. x ∷ out) q.1))))

  -- If the stack is well kept, each node pushed is a node that is not in the stack then, and its nodes and
  -- the calls are fewer than 2^64 together, any calls of `push` and `pop` return what they return on a list, null where it is empty, and leave the stack that
  -- they leave of the list, well kept.
  pub run-refines :
      (ops : List Op) (h : Heap V) (s : Stack) (xs : List Ptr)
      → Holds h s xs
      → Allowed h.cell ops xs
      → length xs + length ops < 2 ^ 64
      → Ensures (λ r h'. Holds h' r.0 (spec ops xs).0 × (r.1 ≡ (spec ops xs).1)) (run ops s h)
  run-refines ops h s xs is allowed room = refines ops h.cell h s xs is (λ a p. p) allowed room

  -- `reverse` of a stack that is not empty leaves its nodes in their order and sets its size to 0; a `pop`
  -- then makes the size 2^64 - 1.
  pub reverse-keeps_order :
      (k : ℕ) (h : Heap V) (s : Stack) (x : Ptr) (xs : List Ptr)
      → Holds h s (x ∷ xs)
      → (reverse k s h ≡ returns (record { size = 0; first = s.first }) h)
        × Ensures
            (λ r h'. (r.0 ≡ x) × (r.1.size ≡ 2 ^ 64 - 1))
            (pop (record { size = 0; first = s.first }) h)
  unfolding reverse push_counted pop_all
  reverse-keeps_order k h s x xs is =
      let (n, there, e) = node_at (h.cell x) (first_or null xs) is.linked.2 in
      let ne : x ≢ null = is.linked.0 in
      (
        ground (arith, is.top),
        rw (pop-runs h (record { size = 0; first = s.first }) x n is.top ne there) (refl, refl),
      )
