-- ===== src/Concurrent/Linear/Laws.antt =====
-- What the operations of `concurrent::linear::stack` do to a stack that is well kept.
use icon.Prelude.{
  ℕ, zero, suc, ◌+◌, ◌-◌, ◌^◌, ◌<◌, ◌≡◌, refl, ◌≢◌, true, false, some, List, [], ◌∷◌, length, ◌==◌,
  arith, Bool-cases, ne→==, inl, inr,
}
use icon.NumberBuffer.{u64}
use icon.Concurrent.Memory.{Ptr, null, Node, Heap, put, returns, Ensures, get_next, set_next}
use icon.Concurrent.Memory.Links.{
  has, first_or, Linked, frame, node_at, link_front, Apart, Apart-cons, get_next-runs, pushed_onto,
}
use icon.Concurrent.Linear.{Stack, pop, push, push_all}

-- The stack holds the nodes `xs`, the first on top, and counts them.
pub record Holds {V : Type 0} (h : Heap V) (s : Stack) (xs : List Ptr) : Type 0 where
  pub top : s.first ≡ first_or null xs
  pub linked : Linked h.cell null xs
  pub counted : s.size ≡ length xs

module _ {V : Type 0} where
  pub push-runs :
      (h : Heap V) (s : Stack) (p : Ptr) (n : Node V)
      → p ≢ null
      → h.cell p ≡ some n
      → push s p h
        ≡ returns
            (record { size = u64 (s.size + 1); first = p })
            (record h { cell = put h.cell p (some (record n { next = s.first })) })
  unfolding push set_next
  push-runs h s p n ne there = ground arith

  pub pop-runs :
      (h : Heap V) (s : Stack) (x : Ptr) (n : Node V)
      → s.first ≡ x
      → x ≢ null
      → h.cell x ≡ some n
      → pop s h
        ≡ returns
            (x, record { size = u64 (s.size + 2 ^ 64 - 1); first = n.next })
            (record h { cell = put h.cell x (some (record n { next = null })) })
  unfolding pop get_next set_next
  pop-runs h s x n e ne there = ground arith

  pub pushed :
      (h : Heap V) (s : Stack) (xs : List Ptr) (p : Ptr) (n : Node V)
      → Holds h s xs
      → p ≢ null
      → has p xs ≡ false
      → length xs + 1 < 2 ^ 64
      → Holds
          (record h { cell = put h.cell p (some (record n { next = s.first })) })
          (record { size = u64 (s.size + 1); first = p })
          (p ∷ xs)
  pushed h s xs p n is ne new room = record {
    top = refl;
    linked = link_front h.cell null xs p s.first n is.linked ne new is.top;
    counted = omega (arith, is.counted);
  }

  push-Holds :
      (h : Heap V) (s : Stack) (xs : List Ptr) (p : Ptr) (n : Node V)
      → Holds h s xs
      → p ≢ null
      → h.cell p ≡ some n
      → has p xs ≡ false
      → length xs + 1 < 2 ^ 64
      → Ensures (λ s' h'. Holds h' s' (p ∷ xs)) (push s p h)
  push-Holds h s xs p n is ne there new room =
      rw (push-runs h s p n ne there) (pushed h s xs p n is ne new room)

  pub pop-empty : (h : Heap V) (s : Stack) → s.first ≡ null → pop s h ≡ returns (null, s) h
  unfolding pop
  pop-empty h s e = ground arith

  -- The stack after `pop`, by the node `n` that was on top
  pub popped :
      (h : Heap V) (s : Stack) (x : Ptr) (xs : List Ptr) (n : Node V)
      → Holds h s (x ∷ xs)
      → h.cell x ≡ some n
      → length xs + 1 < 2 ^ 64
      → (pop s h
          ≡ returns
              (x, record { size = u64 (s.size + 2 ^ 64 - 1); first = n.next })
              (record h { cell = put h.cell x (some (record n { next = null })) }))
        × Holds
            (record h { cell = put h.cell x (some (record n { next = null })) })
            (record { size = u64 (s.size + 2 ^ 64 - 1); first = n.next })
            xs
  popped h s x xs n is there room =
      let (ne, new, to', rest) = is.linked in
      (
        pop-runs h s x n is.top ne there,
        record {
          top = ground (arith, there, to');
          linked = frame h.cell null xs x (some (record n { next = null })) rest new;
          counted = omega (arith, is.counted);
        },
      )

  push_all-step :
      (k : ℕ) (h : Heap V) (s : Stack) (p q : Ptr) (n : Node V)
      → p ≢ null
      → h.cell p ≡ some n
      → n.next ≡ q
      → push_all (suc k) s p h ≡ elim (q == null) [
        | true ↦
            returns
              (record { size = u64 (s.size + 1); first = p })
              (record h { cell = put h.cell p (some (record n { next = s.first })) })
        | false ↦
            push_all k
              (record { size = u64 (s.size + 1); first = p })
              q
              (record h { cell = put h.cell p (some (record n { next = s.first })) })
      ]
  unfolding push_all
  push_all-step k h s p q n ne there e =
      let read : get_next p h ≡ returns q h = get_next-runs h p q (ground arith) in
      rw (read, push-runs h s p n ne there)
        (elim (Bool-cases (q == null)) [ inl t ↦ rw t refl | inr f ↦ rw f refl ])

  -- `push_all(T*)` of a list that shares no node with a well-kept stack, with as many rounds as it has nodes
  -- and fewer than 2^64 nodes in all, puts its nodes on top, the last of the list uppermost, and counts
  -- them.
  pub push_all-Holds :
      (k : ℕ) (h : Heap V) (s : Stack) (xs : List Ptr) (y : Ptr) (ys : List Ptr)
      → Holds h s xs
      → Linked h.cell null (y ∷ ys)
      → Apart (y ∷ ys) xs
      → length ys < k
      → length (y ∷ ys) + length xs < 2 ^ 64
      → Ensures (λ s' h'. Holds h' s' (pushed_onto (y ∷ ys) xs)) (push_all k s y h)
  push_all-Holds zero h s xs y ys is list apart fuel room = absurd (omega arith)
  push_all-Holds (suc k) h s xs y [] is (ne, new, to', rest) (out, apart) fuel room =
      let (n, there, e) = node_at (h.cell y) null to' in
      rw (push_all-step k h s y null n ne there e) (pushed h s xs y n is ne out (omega arith))
  push_all-Holds (suc k) h s xs y (z ∷ zs) is (ne, new, to', rest) (out, apart) fuel room =
      let (n, there, e) = node_at (h.cell y) z to' in
      let rest' = frame h.cell null (z ∷ zs) y (some (record n { next = s.first })) rest new in
      rw (push_all-step k h s y z n ne there e, ne→== z null rest.0)
        (push_all-Holds k _ _ (y ∷ xs) z zs (pushed h s xs y n is ne out (omega arith)) rest'
          (Apart-cons y (z ∷ zs) xs new apart) (omega arith) (omega arith))
