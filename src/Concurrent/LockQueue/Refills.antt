-- ===== src/Concurrent/LockQueue/Refills.antt =====
-- `pop` of `mpmc_queue_lock` of src/Concurrent.hpp as a whole.
use icon.Prelude.{
  ℕ, suc, ◌≤◌, ◌<◌, ◌≡◌, refl, ap, ◌∙◌, ◌≢◌, false, Option, some, List, [], ◌∷◌, length, arith,
  ne→==,
}
use icon.Concurrent.Memory.{Ptr, null, Node, Heap, returns, continue, Ensures}
use icon.Concurrent.Memory.Links.{has, first_or, Linked, node_at, set_next-runs, Ensures-bind}
use icon.Concurrent.Stack as Stack
use icon.Concurrent.Ring as Ring
use icon.Concurrent.Stack.Laws as StackLaws
use icon.Concurrent.Stack.Laws.{pop_all-takes}
use icon.Concurrent.Queue.Batches.{next_batch}
use icon.Concurrent.LockQueue.{Queue, pop_node, push_nodes, push_all_nodes, refill, pop}
use icon.Concurrent.LockQueue.Batches.{Ready, pop_node-Ready, push_nodes-Ready}

-- The producer holds `new`, the latest first; the consumer holds `old`, no NULL among them, and there is
-- memory for it to take `new`.
pub record HoldsBatches {V : Type 0} (o : Heap V) (r : Heap Ptr) (q : Queue) (new old : List Ptr)
    : Type 0 where
  pub fresh : StackLaws.Holds o q.producer new
  pub batch : Ready r q.consumer old (length new)
  pub real : has null old ≡ false

module _ {V : Type 0} where
  Linked-real :
      (cell : Ptr → Option (Node V)) (xs : List Ptr) → Linked cell null xs → has null xs ≡ false
  Linked-real cell [] h = refl
  Linked-real cell (x ∷ xs) (ne, new, to', rest') = ground (arith, Linked-real cell xs rest')

  push_all_nodes-none :
      (k : ℕ) (o : Heap V) (r : Heap Ptr) (q : Queue)
      → q.producer.first ≡ null
      → push_all_nodes k q.consumer (Stack.pop_all q.producer).0 o r ≡ returns (q.consumer, o) r
  unfolding push_all_nodes
  push_all_nodes-none k o r q e = rw (pop_all-takes q.producer, e) refl

  push_all_nodes-at :
      (k : ℕ) (o : Heap V) (r : Heap Ptr) (c : Ring.Queue) (x : Ptr)
      → x ≢ null
      → push_all_nodes k c x o r ≡ push_nodes k c x o r
  unfolding push_all_nodes
  push_all_nodes-at k o r c x ne = rw (push_all_nodes, ne→== x null ne) refl

  push_all_nodes-some :
      (k : ℕ) (o : Heap V) (r : Heap Ptr) (q : Queue) (x : Ptr)
      → q.producer.first ≡ x
      → x ≢ null
      → push_all_nodes k q.consumer (Stack.pop_all q.producer).0 o r ≡ push_nodes k q.consumer x o r
  push_all_nodes-some k o r q x e ne =
      rw (pop_all-takes q.producer, e) (push_all_nodes-at k o r q.consumer x ne)

  refill-empty :
      (k : ℕ) (o : Heap V) (r : Heap Ptr) (q : Queue)
      → HoldsBatches o r q [] []
      → Ensures (λ a r'. (a.0.0 ≡ null) × HoldsBatches a.1 r' a.0.1 [] []) (refill (suc k) q o r)
  unfolding refill
  refill-empty k o r q is = rw (push_all_nodes-none (suc k) o r q is.fresh.top) (
      Ensures-bind _ (pop_node (suc k) q.consumer o r) _
        (pop_node-Ready k o r q.consumer [] 0 is.batch)
        (λ a r' (e, same, same', is').
          rw (e, pop_all-takes q.producer)
            (
              e,
              record {
                fresh = record { top = refl; linked = tt };
                batch = rw same' is';
                real = refl;
              },
            )))

  refill-full :
      (k : ℕ) (o : Heap V) (r : Heap Ptr) (q : Queue) (x : Ptr) (xs : List Ptr)
      → HoldsBatches o r q (x ∷ xs) []
      → length xs < suc k
      → Ensures (λ a r'. (a.0.0 ≡ x) × HoldsBatches a.1 r' a.0.1 [] xs) (refill (suc k) q o r)
  unfolding refill
  refill-full k o r q x xs is fuel =
      rw (push_all_nodes-some (suc k) o r q x is.fresh.top is.fresh.linked.0) (
        Ensures-bind _ (push_nodes (suc k) q.consumer x o r) _
          (push_nodes-Ready (suc k) o r q.consumer [] x xs is.fresh.linked fuel is.batch)
          (λ c r₁ (same, ready).
            Ensures-bind _ (pop_node (suc k) c.0 c.1 r₁) _
              (pop_node-Ready k c.1 r₁ c.0 (x ∷ xs) 0 ready)
              (λ a r' (e, same₂, same', is').
                let (n, there, to') = node_at (o.cell x) (first_or null xs) is.fresh.linked.2 in
                let there' : a.1.cell x ≡ some n = ap (λ z. z.cell x) (same₂ ∙ same) ∙ there in
                let got : a.0.0 ≡ x = e in
                rw
                  (
                    got,
                    ne→== x null is.fresh.linked.0,
                    got,
                    continue,
                    set_next-runs a.1 x null n there',
                    pop_all-takes q.producer,
                  )
                  (
                    refl,
                    record {
                      fresh = record { top = refl; linked = tt };
                      batch = rw same' is';
                      real = Linked-real o.cell xs is.fresh.linked.3;
                    },
                  ))))

  -- The queue with the ring as a `pop` leaves it
  left_by_pop :
      (o o' : Heap V) (r r' : Heap Ptr) (q : Queue) (c : Ring.Queue) (new old old' : List Ptr)
      → HoldsBatches o r q new old
      → o' ≡ o
      → r' ≡ r
      → Ready r c old' (length new)
      → has null old' ≡ false
      → HoldsBatches o' r' (record q { consumer = c }) new old'
  left_by_pop o o' r r' q c new old old' is same same' ready real =
      rw (same, same') (record { fresh = is.fresh; batch = ready; real = real })

  refill-Holds :
      (k : ℕ) (o : Heap V) (r : Heap Ptr) (q : Queue) (new : List Ptr)
      → HoldsBatches o r q new []
      → length new ≤ suc k
      → Ensures
          (λ a r'.
            (a.0.0 ≡ (next_batch new []).0)
            × HoldsBatches a.1 r' a.0.1 (next_batch new []).1 (next_batch new []).2)
          (refill (suc k) q o r)
  unfolding next_batch
  refill-Holds k o r q [] is fuel = refill-empty k o r q is
  refill-Holds k o r q (x ∷ xs) is fuel = refill-full k o r q x xs is (omega arith)

  -- On a well-kept `mpmc_queue_lock` that has memory for what was pushed, with as many rounds as there are
  -- objects pushed since the last refill, and one at least, `pop` takes the first of the batch; where the
  -- batch is empty it first makes all that was pushed since the batch, the latest first; where both are
  -- empty it gives NULL. The queue is left well kept.
  pub pop-batches :
      (k : ℕ) (o : Heap V) (r : Heap Ptr) (q : Queue) (new old : List Ptr)
      → HoldsBatches o r q new old
      → length new ≤ suc k
      → Ensures
          (λ a r'.
            (a.0.0 ≡ (next_batch new old).0)
            × HoldsBatches a.1 r' a.0.1 (next_batch new old).1 (next_batch new old).2)
          (pop (suc k) q o r)
  unfolding pop
  pop-batches k o r q new [] is fuel =
      Ensures-bind _ (pop_node (suc k) q.consumer o r) _
        (pop_node-Ready k o r q.consumer [] (length new) is.batch)
        (λ a r₁ (e, same, same', ready). rw e (
          let is₁ = left_by_pop o a.1 r r₁ q a.0.1 new [] [] is same same' ready refl in
          Ensures-bind _ (pop_node (suc k) a.0.1 a.1 r₁) _
            (pop_node-Ready k a.1 r₁ a.0.1 [] (length new) is₁.batch)
            (λ b r₂ (e₂, same₂, same₂', ready₂). rw e₂ (
              refill-Holds k b.1 r₂ (record q { consumer = b.0.1 }) new
                (left_by_pop a.1 b.1 r₁ r₂ (record q { consumer = a.0.1 }) b.0.1 new [] [] is₁ same₂
                  same₂' ready₂ refl)
                fuel))))
  pop-batches k o r q new (y ∷ ys) is fuel =
      let ne : y ≢ null = λ e. ground (arith, is.real, e) in
      Ensures-bind _ (pop_node (suc k) q.consumer o r) _
        (pop_node-Ready k o r q.consumer (y ∷ ys) (length new) is.batch)
        (λ a r₁ (e, same, same', ready).
          let got : a.0.0 ≡ y = e in
          let left =
            left_by_pop o a.1 r r₁ q a.0.1 new (y ∷ ys) ys is same same' ready
              (ground (arith, is.real)) in
          rw (got, ne→== y null ne, got) (unfold next_batch in (refl, left)))
