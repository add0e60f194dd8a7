-- ===== src/Concurrent/Queue/Batches.antt =====
-- `mpsc_queue` against two lists: what was pushed since the last refill, the latest first, and what is left
-- of the batch before.
use icon.Prelude.{ℕ, zero, suc, ◌≡◌, refl, ◌≢◌, false, Option, none, some, List, [], ◌∷◌, arith}
use icon.Concurrent.Memory.{Ptr, null, Node, Heap, returns, Ensures, Program, pure, ◌>>=◌}
use icon.Concurrent.Memory.Links.{
  has, first_or, next_of, frame, node_at, Apart, Apart-out, Apart-tail, Ensures-mono, Ensures-bind,
}
use icon.Concurrent.Memory.Calls.{Op, put_on, take_off, Keeps, Keeps-put, node_of, with_reply}
use icon.Concurrent.Stack.{Stack, push_all_unsafe, pop_all}
use icon.Concurrent.Stack.Laws as StackLaws
use icon.Concurrent.Stack.Laws.{
  Holds, linking, push-runs, taken_off, pop-runs, pop-empty, push_all_unsafe-empty, pop_all-takes,
}
use icon.Concurrent.Queue.{Queue, enqueue, dequeue}

pub record HoldsBatches {V : Type 0} (h : Heap V) (q : Queue) (new old : List Ptr) : Type 0 where
  pub fresh : Holds h q.producer new
  pub batch : Holds h q.consumer old
  pub apart : Apart new old

-- What `pop` gives and leaves of the two lists: the first of the batch, or of what was pushed since.
unfoldable pub next_batch : List Ptr → List Ptr → Ptr × List Ptr × List Ptr
next_batch new (y ∷ old) = (y, new, old)
next_batch (x ∷ new) [] = (x, [], new)
next_batch [] [] = (null, [], [])

module _ {V : Type 0} where
  Holds_frame :
      (h : Heap V) (s : Stack) (xs : List Ptr) (p q : Ptr) (n : Node V)
      → Holds h s xs
      → has p xs ≡ false
      → Holds (linking h p n q) s xs
  Holds_frame h s xs p q n is out = record {
    top = is.top;
    linked = frame h.cell null xs p (some (record n { next = q })) is.linked out;
  }

  enqueue-runs :
      (h : Heap V) (q : Queue) (p : Ptr) (n : Node V)
      → p ≢ null
      → h.cell p ≡ some n
      → enqueue zero q p h
        ≡ returns (record q { producer = record { first = p } }) (linking h p n q.producer.first)
  unfolding enqueue
  enqueue-runs h q p n ne there = rw (push-runs h q.producer p n ne there) refl

  -- A `pop` while a batch is left
  dequeue-batch :
      (k : ℕ) (h : Heap V) (q : Queue) (y : Ptr) (n : Node V)
      → q.consumer.first ≡ y
      → y ≢ null
      → h.cell y ≡ some n
      → dequeue (suc k) q h
        ≡ returns (y, record q { consumer = record { first = n.next } }) (linking h y n null)
  unfolding dequeue
  dequeue-batch k h q y n e ne there = rw (pop-runs k h q.consumer y n e ne there) (ground arith)

  -- A `pop` that refills the batch
  dequeue-refill :
      (k : ℕ) (h : Heap V) (q : Queue) (x : Ptr) (n : Node V)
      → q.consumer.first ≡ null
      → q.producer.first ≡ x
      → x ≢ null
      → h.cell x ≡ some n
      → dequeue (suc k) q h
        ≡ returns
            (x, record { producer = record { first = null }; consumer = record { first = n.next } })
            (linking h x n null)
  unfolding dequeue
  dequeue-refill k h q x n empty e ne there =
      let taken : (pop_all q.producer).0 ≡ x = ground (arith, pop_all-takes q.producer) in
      let left : (pop_all q.producer).1 ≡ record { first = null } =
        ground (arith, pop_all-takes q.producer) in
      rw (pop-empty k h q.consumer empty) (
        rw (taken, left, push_all_unsafe-empty (suc k) h q.consumer x empty ne)
          (rw (pop-runs k h (record { first = x }) x n refl ne there) refl))

  dequeue-empty :
      (k : ℕ) (h : Heap V) (q : Queue)
      → q.consumer.first ≡ null
      → q.producer.first ≡ null
      → dequeue (suc k) q h
        ≡ returns (null, record { producer = record { first = null }; consumer = q.consumer }) h
  unfolding dequeue push_all_unsafe
  dequeue-empty k h q empty e =
      ground (arith, pop-empty k h q.consumer empty, pop_all-takes q.producer)

-- The calls, with what each `pop` returns.
unfoldable pub run : {V : Type 0} → List Op → Queue → Program V (Queue × List Ptr)
run [] q = pure (q, [])
run (put_on p ∷ ops) q = do q' ← enqueue zero q p; run ops q'
run (take_off ∷ ops) q = do (p, q') ← dequeue 1 q; (last, out) ← run ops q'; pure (last, p ∷ out)

-- The same calls on two lists
unfoldable pub spec : List Op → List Ptr → List Ptr → (List Ptr × List Ptr) × List Ptr
unfolding next_batch
spec [] new old = ((new, old), [])
spec (put_on p ∷ ops) new old = spec ops (p ∷ new) old
spec (take_off ∷ ops) new old =
    let next = next_batch new old in
    let (last, out) = spec ops next.1 next.2 in (last, next.0 ∷ out)

-- What is pushed is a node that is in neither list then.
unfoldable pub Allowed :
    {V : Type 0} → (Ptr → Option (Node V)) → List Op → List Ptr → List Ptr → Type 0
unfolding next_batch
Allowed cell [] new old = Unit {0}
Allowed cell (put_on p ∷ ops) new old =
    (p ≢ null)
    × (next_of (cell p) ≢ none)
    × (has p new ≡ false)
    × (has p old ≡ false)
    × Allowed cell ops (p ∷ new) old
Allowed cell (take_off ∷ ops) new old =
    let next = next_batch new old in Allowed cell ops next.1 next.2

module _ {V : Type 0} where
  enqueued :
      (h : Heap V) (q : Queue) (new old : List Ptr) (p : Ptr) (n : Node V)
      → HoldsBatches h q new old
      → p ≢ null
      → has p new ≡ false
      → has p old ≡ false
      → HoldsBatches
          (linking h p n q.producer.first)
          (record q { producer = record { first = p } })
          (p ∷ new)
          old
  enqueued h q new old p n is ne out out' = record {
    fresh = StackLaws.put_on h q.producer new p n is.fresh ne out;
    batch = Holds_frame h q.consumer old p q.producer.first n is.batch out';
    apart = (out', is.apart);
  }

  -- A `pop` of two lists that are not both empty
  dequeued :
      (h : Heap V) (q : Queue) (new old : List Ptr)
      → HoldsBatches h q new old
      → Ensures
          (λ r h'.
            (r.0 ≡ (next_batch new old).0)
            × HoldsBatches h' r.1 (next_batch new old).1 (next_batch new old).2
            × Keeps h.cell h'.cell)
          (dequeue 1 q h)
  unfolding next_batch
  dequeued h q new (y ∷ old) is =
      let (n, there, e) = node_at (h.cell y) (first_or null old) is.batch.linked.2 in
      rw (dequeue-batch zero h q y n is.batch.top is.batch.linked.0 there) (
        refl,
        record {
          fresh = Holds_frame h q.producer new y null n is.fresh (Apart-out y new old is.apart);
          batch = taken_off h q.consumer y old n is.batch there;
          apart = Apart-tail y new old is.apart;
        },
        Keeps-put h.cell h.cell y _ (λ a k. k),
      )
  dequeued h q (x ∷ new) [] is =
      let (n, there, e) = node_at (h.cell x) (first_or null new) is.fresh.linked.2 in
      rw (dequeue-refill zero h q x n is.batch.top is.fresh.top is.fresh.linked.0 there) (
        refl,
        record {
          fresh = record { top = refl; linked = tt };
          batch = taken_off h q.producer x new n is.fresh there;
          apart = tt;
        },
        Keeps-put h.cell h.cell x _ (λ a k. k),
      )
  dequeued h q [] [] is = rw (dequeue-empty zero h q is.batch.top is.fresh.top) (
    refl,
    record { fresh = record { top = refl; linked = tt }; batch = is.batch; apart = tt },
    λ a k. k,
  )

  refines :
      (ops : List Op) (before : Ptr → Option (Node V)) (h : Heap V) (q : Queue) (new old : List Ptr)
      → HoldsBatches h q new old
      → Keeps before h.cell
      → Allowed before ops new old
      → Ensures
          (λ r h'.
            HoldsBatches h' r.0 (spec ops new old).0.0 (spec ops new old).0.1
            × (r.1 ≡ (spec ops new old).1))
          (run ops q h)
  unfolding run spec Allowed
  refines [] before h q new old is keeps allowed = (is, refl)
  refines (put_on p ∷ ops) before h q new old is keeps (ne, node, out, out', allowed) =
      let (n, there) = node_of (h.cell p) (keeps p node) in
      rw (enqueue-runs h q p n ne there) (
        refines ops before _ _ (p ∷ new) old (enqueued h q new old p n is ne out out')
          (Keeps-put before h.cell p _ keeps) allowed)
  refines (take_off ∷ ops) before h q new old is keeps allowed =
      Ensures-bind _ (dequeue 1 q h) _ (dequeued h q new old is) (λ r h' (e, is', kept).
        with_reply r.0 _ (run ops r.1 h') (
          Ensures-mono (run ops r.1 h')
            (refines ops before h' r.1 _ _ is' (λ a k. kept a (keeps a k)) allowed)
            (λ o h'' done. (done.0, cc))))

  -- If the queue is well kept, and each node pushed is a node that is not in the queue then, any calls of
  -- `push` and `pop` return what they return on two lists: a `pop` takes the first of the batch; where the
  -- batch is empty it first takes all that was pushed since, the latest first, as the new batch; where both
  -- are empty it returns null. The queue is left well kept.
  pub run-batches :
      (ops : List Op) (h : Heap V) (q : Queue) (new old : List Ptr)
      → HoldsBatches h q new old
      → Allowed h.cell ops new old
      → Ensures
          (λ r h'.
            HoldsBatches h' r.0 (spec ops new old).0.0 (spec ops new old).0.1
            × (r.1 ≡ (spec ops new old).1))
          (run ops q h)
  run-batches ops h q new old is allowed = refines ops h.cell h q new old is (λ a k. k) allowed
