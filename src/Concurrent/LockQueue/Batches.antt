-- ===== src/Concurrent/LockQueue/Batches.antt =====
-- `pop` of `mpmc_queue_lock` of src/Concurrent.hpp against two lists: what was pushed since the last refill, the
-- latest first, and what is left of the batch before.
use icon.Prelude.{
  ℕ, zero, suc, ◌^◌, ◌≤◌, ◌<◌, ◌≡◌, refl, sym, true, false, some, List, [], ◌∷◌, ◌++◌, append_assoc,
  length, ◌==◌, arith, ne→==, subst,
}
use icon.Concurrent.Memory.{Ptr, null, Heap, returns, continue, Ensures}
use icon.Concurrent.Memory.Links.{
  first_or, next_of, Linked, get_next-runs, Ensures-mono, Ensures-bind, rest,
}
use icon.Concurrent.Ring as Ring
use icon.Concurrent.Ring.Holds.{HoldsAt, Supplied}
use icon.Concurrent.Ring.Steps as Steps
use icon.Concurrent.Ring.Fifo.{Holds}
use icon.Concurrent.LockQueue.{Both, pure, on_ring, or_null, pop_node, push_nodes}

-- The ring holds `xs`, and there is memory for `n` more blocks of it.
pub record Ready (r : Heap Ptr) (c : Ring.Queue) (xs : List Ptr) (n : ℕ) : Type 0 where
  pub holds : Holds r c xs
  pub some_batch : 0 < c.batch
  pub bounded : c.batch < 2 ^ 64
  pub enough : n ≤ length r.supply
  pub supplied : Supplied r.cell c.batch r.supply

popped_at :
    (k : ℕ) (r : Heap Ptr) (c : Ring.Queue) (used free xs : List Ptr)
    → HoldsAt r c used free xs
    → Ensures
        (λ a r'.
          (or_null a.0 ≡ first_or null xs)
          × (r' ≡ r)
          × Holds r a.1 (rest xs)
          × (a.1.batch ≡ c.batch))
        (Ring.pop (suc k) c r)
popped_at k r c [] free [] at =
    rw (Steps.pop-empty k r c at.front) (refl, refl, ([], free, at), refl)
popped_at k r c (p ∷ ps) free (x ∷ xs) at =
    rw (Steps.pop-first k r c p ps free x xs at)
      (refl, refl, (ps, free ++ (p ∷ []), Steps.taken r c p ps free x xs at), refl)
popped_at k r c [] free (x ∷ xs) at = absurd at.filled
popped_at k r c (p ∷ ps) free [] at = absurd at.filled

pop-Ready :
    (k : ℕ) (r : Heap Ptr) (c : Ring.Queue) (xs : List Ptr) (n : ℕ)
    → Ready r c xs n
    → Ensures
        (λ a r'. (or_null a.0 ≡ first_or null xs) × (r' ≡ r) × Ready r a.1 (rest xs) n)
        (Ring.pop (suc k) c r)
pop-Ready k r c xs n is =
    let (used, free, at) = is.holds in
    Ensures-mono (Ring.pop (suc k) c r) (popped_at k r c used free xs at)
      (λ a r' (e, same, holds, batch). (
        e,
        same,
        record {
          holds = holds;
          some_batch = omega (arith, batch, is.some_batch);
          bounded = omega (arith, batch, is.bounded);
          enough = is.enough;
          supplied = subst (λ m. Supplied r.cell m r.supply) (sym batch) is.supplied;
        },
      ))

pushed-Ready :
    (r r' : Heap Ptr) (c c' : Ring.Queue) (xs : List Ptr) (p : Ptr) (n : ℕ)
    → Ready r c xs (suc n)
    → Steps.Pushed c r.supply xs p c' r'
    → Ready r' c' (xs ++ (p ∷ [])) n
pushed-Ready r r' c c' xs p n is done = record {
  holds = (done.now, done.free, done.holds);
  some_batch = omega (arith, done.same_batch, is.some_batch);
  bounded = omega (arith, done.same_batch, is.bounded);
  enough = omega (arith, done.few, is.enough);
  supplied = subst (λ m. Supplied r'.cell m r'.supply) (sym done.same_batch) done.supplied;
}

push-Ready :
    (r : Heap Ptr) (c : Ring.Queue) (xs : List Ptr) (p : Ptr) (n : ℕ)
    → Ready r c xs (suc n)
    → Ensures (λ c' r'. Ready r' c' (xs ++ (p ∷ [])) n) (Ring.push null c p r)
push-Ready r c xs p n is =
    let (used, free, at) = is.holds in
    Ensures-mono (Ring.push null c p r)
      (Steps.push-Holds null r c used free xs p at is.some_batch is.bounded
        (omega (arith, is.enough)) is.supplied)
      (λ c' r' done. pushed-Ready r r' c c' xs p n is done)

module _ {V : Type 0} where
  -- `pop` of a ring of addresses
  pub pop_node-Ready :
      (k : ℕ) (o : Heap V) (r : Heap Ptr) (c : Ring.Queue) (xs : List Ptr) (n : ℕ)
      → Ready r c xs n
      → Ensures
          (λ a r'. (a.0.0 ≡ first_or null xs) × (a.1 ≡ o) × (r' ≡ r) × Ready r a.0.1 (rest xs) n)
          (pop_node (suc k) c o r)
  unfolding pop_node
  pop_node-Ready k o r c xs n is =
      Ensures-bind _ (on_ring (Ring.pop (suc k) c) o r) _
        (Ensures-bind
          (λ x r'.
            (or_null x.0.0 ≡ first_or null xs) × (x.1 ≡ o) × (r' ≡ r) × Ready r x.0.1 (rest xs) n)
          (Ring.pop (suc k) c r) (λ a. returns (a, o)) (pop-Ready k r c xs n is)
          (λ a r' (e, same, is'). (e, refl, same, is')))
        (λ x r' h. h)

  push_node-Ready :
      (o : Heap V) (r : Heap Ptr) (c : Ring.Queue) (xs : List Ptr) (p : Ptr) (n : ℕ)
      → Ready r c xs (suc n)
      → Ensures
          (λ a r'. (a.1 ≡ o) × Ready r' a.0 (xs ++ (p ∷ [])) n)
          (on_ring (Ring.push null c p) o r)
  push_node-Ready o r c xs p n is =
      Ensures-bind _ (Ring.push null c p r) (λ a. returns (a, o)) (push-Ready r c xs p n is)
        (λ c' r' is'. (refl, is'))

  push_nodes-next :
      (k : ℕ) (o : Heap V) (r : Heap Ptr) (c : Ring.Queue) (y q : Ptr)
      → next_of (o.cell y) ≡ some q
      → push_nodes (suc k) c y o r
        ≡ continue (on_ring (Ring.push null c y) o r) (λ x.
          (elim (q == null) as (λ _. Both V Ring.Queue) [
            | true ↦ pure x.0
            | false ↦ push_nodes k x.0 q
          ])
            x.1)
  unfolding push_nodes
  push_nodes-next k o r c y q e = rw (continue, get_next-runs o y q e) refl

  pub push_nodes-Ready :
      (k : ℕ) (o : Heap V) (r : Heap Ptr) (c : Ring.Queue) (xs : List Ptr) (y : Ptr) (ys : List Ptr)
      → Linked o.cell null (y ∷ ys)
      → length ys < k
      → Ready r c xs (length (y ∷ ys))
      → Ensures (λ a r'. (a.1 ≡ o) × Ready r' a.0 (xs ++ (y ∷ ys)) 0) (push_nodes k c y o r)
  push_nodes-Ready zero o r c xs y ys list fuel is = absurd (omega arith)
  push_nodes-Ready (suc k) o r c xs y [] (ne, new, to', list) fuel is =
      rw (push_nodes-next k o r c y null to') (
        Ensures-bind _ (on_ring (Ring.push null c y) o r) _ (push_node-Ready o r c xs y 0 is)
          (λ x r' h. h))
  push_nodes-Ready (suc k) o r c xs y (z ∷ zs) (ne, new, to', list) fuel is =
      rw (push_nodes-next k o r c y z to', ne→== z null list.0)
        (Ensures-bind _ (on_ring (Ring.push null c y) o r) _
          (push_node-Ready o r c xs y (length (z ∷ zs)) is)
          (λ x r' (same, is'). rw same (
            subst (λ l. Ensures (λ a r'. (a.1 ≡ o) × Ready r' a.0 l 0) (push_nodes k x.0 z o r'))
              (append_assoc xs (y ∷ []) (z ∷ zs))
              (push_nodes-Ready k o r' x.0 (xs ++ (y ∷ [])) z zs list (omega arith) is'))))
