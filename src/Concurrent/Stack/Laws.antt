-- ===== src/Concurrent/Stack/Laws.antt =====
-- What whole calls do to a stack of src/Concurrent.hpp that holds a list of nodes.
use icon.Prelude.{ℕ, zero, suc, ◌≡◌, refl, ◌≢◌, false, some, List, [], ◌∷◌, arith, ne→==}
use icon.Concurrent.Memory.{Ptr, null, Node, Heap, put, returns, Ensures, get_next, set_next}
use icon.Concurrent.Memory.Links.{
  has, first_or, Linked, frame, put_self, node_at, link_front, set_next-runs,
}
use icon.Concurrent.Stack.{
  Stack, exchange, pop, pop_locked, pop_unsafe, push, push_unsafe, push_all, push_all_unsafe,
  pop_all, reverse, reverse_unsafe,
}

-- The stack holds the nodes `xs`, the first on top.
pub record Holds {V : Type 0} (h : Heap V) (s : Stack) (xs : List Ptr) : Type 0 where
  pub top : s.first ≡ first_or null xs
  pub linked : Linked h.cell null xs

-- The heap where `p` points to `q`
abbrev pub linking : {V : Type 0} → Heap V → Ptr → Node V → Ptr → Heap V
linking h p n q = record h { cell = put h.cell p (some (record n { next = q })) }

pub pop_all-takes : (s : Stack) → pop_all s ≡ (s.first, record { first = null })
unfolding pop_all exchange
pop_all-takes s = ground arith

module _ {V : Type 0} where
  -- Each of the ways to push one node does the same, however often the weak exchange fails.
  pub push-runs :
      (h : Heap V) (s : Stack) (p : Ptr) (n : Node V)
      → p ≢ null
      → h.cell p ≡ some n
      → push zero s p h ≡ returns (record { first = p }) (linking h p n s.first)
  unfolding push exchange set_next get_next put
  push-runs h s p n ne there = ground arith

  pub push_unsafe-runs :
      (h : Heap V) (s : Stack) (p : Ptr) (n : Node V)
      → p ≢ null
      → h.cell p ≡ some n
      → push_unsafe s p h ≡ returns (record { first = p }) (linking h p n s.first)
  unfolding push_unsafe set_next put
  push_unsafe-runs h s p n ne there = ground arith

  pub pop_unsafe-runs :
      (h : Heap V) (s : Stack) (x : Ptr) (n : Node V)
      → s.first ≡ x
      → x ≢ null
      → h.cell x ≡ some n
      → pop_unsafe s h ≡ returns (x, record { first = n.next }) (linking h x n null)
  unfolding pop_unsafe set_next get_next put
  pop_unsafe-runs h s x n e ne there = ground arith

  pub pop-runs :
      (k : ℕ) (h : Heap V) (s : Stack) (x : Ptr) (n : Node V)
      → s.first ≡ x
      → x ≢ null
      → h.cell x ≡ some n
      → pop (suc k) s h ≡ returns (x, record { first = n.next }) (linking h x n null)
  unfolding pop exchange set_next get_next put
  pop-runs k h s x n e ne there = ground arith

  pub pop_locked-runs :
      (k : ℕ) (h : Heap V) (s : Stack) (x : Ptr) (n : Node V)
      → s.first ≡ x
      → x ≢ null
      → h.cell x ≡ some n
      → pop_locked (suc k) s h ≡ returns (x, record { first = n.next }) h
  unfolding pop_locked exchange get_next
  pop_locked-runs k h s x n e ne there = ground arith

  -- The stack after a node is put on top, and after one is taken off
  pub put_on :
      (h : Heap V) (s : Stack) (xs : List Ptr) (p : Ptr) (n : Node V)
      → Holds h s xs
      → p ≢ null
      → has p xs ≡ false
      → Holds (linking h p n s.first) (record { first = p }) (p ∷ xs)
  put_on h s xs p n is ne new = record {
    top = refl;
    linked = link_front h.cell null xs p s.first n is.linked ne new is.top;
  }

  pub taken_off :
      (h : Heap V) (s : Stack) (x : Ptr) (xs : List Ptr) (n : Node V)
      → Holds h s (x ∷ xs)
      → h.cell x ≡ some n
      → Holds (linking h x n null) (record { first = n.next }) xs
  taken_off h s x xs n is there =
      let (ne, new, to', rest) = is.linked in
      record {
        top = ground (arith, there, to');
        linked = frame h.cell null xs x (some (record n { next = null })) rest new;
      }

  push_again :
      (k : ℕ) (h : Heap V) (s : Stack) (p : Ptr) (n : Node V)
      → p ≢ null
      → h.cell p ≡ some n
      → push (suc k) s p h
        ≡ push k s p (linking (linking h p n s.first) p (record n { next = s.first }) s.first)
  unfolding push
  push_again k h s p n ne there =
      let m : Node V = record n { next = s.first } in
      let once = set_next-runs h p s.first n there in
      let twice = set_next-runs (linking h p n s.first) p s.first m (put_self h.cell p (some m)) in
      ground (arith, ne→== p null ne, once, twice)

  -- A node that is not in a well-kept stack is put on top of it by `push`, however often the weak exchange
  -- fails for no reason.
  pub push-Holds :
      (spurious : ℕ) (h : Heap V) (s : Stack) (xs : List Ptr) (p : Ptr) (n : Node V)
      → Holds h s xs
      → p ≢ null
      → h.cell p ≡ some n
      → has p xs ≡ false
      → Ensures (λ s' h'. Holds h' s' (p ∷ xs)) (push spurious s p h)
  push-Holds zero h s xs p n is ne there new =
      rw (push-runs h s p n ne there) (put_on h s xs p n is ne new)
  push-Holds (suc k) h s xs p n is ne there new =
      let m : Node V = record n { next = s.first } in
      let h₁ = linking h p n s.first in
      let h₂ = linking h₁ p m s.first in
      let again = push_again k h s p n ne there in
      rw again (
        push-Holds k h₂ s xs p m
          (record {
            top = is.top;
            linked =
                frame h₁.cell null xs p (some m) (frame h.cell null xs p (some m) is.linked new)
                  new;
          })
          ne (put_self h₁.cell p (some m)) new)

  -- A `pop` of a stack that is not empty returns the node on top and takes it off.
  pub pop-Holds :
      (k : ℕ) (h : Heap V) (s : Stack) (x : Ptr) (xs : List Ptr)
      → Holds h s (x ∷ xs)
      → Ensures (λ r h'. (r.0 ≡ x) × Holds h' r.1 xs) (pop (suc k) s h)
  pop-Holds k h s x xs is =
      let (n, there, e) = node_at (h.cell x) (first_or null xs) is.linked.2 in
      rw (pop-runs k h s x n is.top is.linked.0 there) (refl, taken_off h s x xs n is there)

  pub pop-empty :
      (k : ℕ) (h : Heap V) (s : Stack) → s.first ≡ null → pop (suc k) s h ≡ returns (null, s) h
  unfolding pop
  pop-empty k h s e = ground arith

  -- Where the stack is empty, both ways to push a list leave it in its order.
  pub push_all-empty :
      (k : ℕ) (h : Heap V) (s : Stack) (y : Ptr) (n : Node V)
      → s.first ≡ null
      → y ≢ null
      → h.cell y ≡ some n
      → push_all (suc k) s y h ≡ returns (record { first = y }) h
  unfolding push_all exchange get_next
  push_all-empty k h s y n e ne there = ground arith

  pub push_all_unsafe-empty :
      (k : ℕ) (h : Heap V) (s : Stack) (y : Ptr)
      → s.first ≡ null
      → y ≢ null
      → push_all_unsafe k s y h ≡ returns (record { first = y }) h
  unfolding push_all_unsafe
  push_all_unsafe-empty k h s y e ne = ground arith

  -- `reverse` and `reverse_unsafe` of a stack leave its nodes in their order, and the memory as it is.
  pub reverse-same :
      (k : ℕ) (h : Heap V) (s : Stack) (xs : List Ptr)
      → Holds h s xs
      → (reverse (suc k) s h ≡ returns s h) × (reverse_unsafe k s h ≡ returns s h)
  unfolding reverse reverse_unsafe push_all push_all_unsafe pop_all exchange get_next
  reverse-same k h s [] is = (ground (arith, is.top), ground (arith, is.top))
  reverse-same k h s (x ∷ xs) is =
      let (n, there, e) = node_at (h.cell x) (first_or null xs) is.linked.2 in
      let ne : x ≢ null = is.linked.0 in (ground (arith, is.top), ground (arith, is.top))
