-- ===== src/Concurrent/Pool/Objects.antt =====
-- The objects of a `ptr::pool` in src/Concurrent.hpp: none is lost, none is given twice.
use icon.Prelude.{
  ℕ, zero, suc, ◌<◌, ◌≡◌, refl, ap, ◌∙◌, ◌≢◌, Bool, true, false, not, ◌&&◌, ◌||◌, Option, none,
  some, List, [], ◌∷◌, ◌++◌, length, ◌==◌, arith, ne→==,
}
use icon.Concurrent.Memory.{Ptr, null, Node, Heap, put, returns, Ensures, new, delete}
use icon.Concurrent.Memory.Links.{
  has, first_or, frame, node_at, Ensures-mono, Ensures-bind, pushed_onto, rest,
}
use icon.Concurrent.Stack as Stack
use icon.Concurrent.Stack.Laws as Laws
use icon.Concurrent.Pool.{Container, mpmc_stack, allocate, get, destroy}

-- There is an object in the cell.
abbrev pub alive : {V : Type 0} → Option (Node V) → Bool
alive none = false
alive (some n) = true

-- The same objects are there, and `new` goes on as before.
pub record SameObjects {V : Type 0} (h h' : Heap V) : Type 0 where
  pub supplied : h'.supply ≡ h.supply
  pub living : (a : Ptr) → alive (h'.cell a) ≡ alive (h.cell a)

-- What `pool` relies on: the container holds a list of objects, to which `push` adds and of which `pop` takes
-- the first, null where there is none. What is done to other objects does not disturb it.
pub record StackLaws {V : Type 0} (c : Container V) : Type 1 where
  pub Held : Heap V → c.State → List Ptr → Type 0
  pub elsewhere :
      (h : Heap V) (s : c.State) (xs : List Ptr) (p : Ptr) (o : Option (Node V)) (bs : List Ptr)
      → Held h s xs
      → has p xs ≡ false
      → Held (record { cell = put h.cell p o; supply = bs }) s xs
  pub distinct :
      (h : Heap V) (s : c.State) (x : Ptr) (xs : List Ptr) → Held h s (x ∷ xs) → has x xs ≡ false
  pub pushed :
      (h : Heap V) (s : c.State) (xs : List Ptr) (p : Ptr)
      → Held h s xs
      → p ≢ null
      → alive (h.cell p) ≡ true
      → has p xs ≡ false
      → Ensures (λ s' h'. Held h' s' (p ∷ xs) × SameObjects h h') (c.push s p h)
  pub popped :
      (h : Heap V) (s : c.State) (x : Ptr) (xs : List Ptr)
      → Held h s (x ∷ xs)
      → Ensures
          (λ r h'.
            (r.0 ≡ x) × (x ≢ null) × (alive (h.cell x) ≡ true) × Held h' r.1 xs × SameObjects h h')
          (c.pop s h)
  pub popped_none :
      (h : Heap V) (s : c.State)
      → Held h s []
      → Ensures (λ r h'. (r.0 ≡ null) × (h' ≡ h) × Held h r.1 []) (c.pop s h)

module _ {V : Type 0} where
  pub alive-node : (o : Option (Node V)) → alive o ≡ true → (n : Node V) × (o ≡ some n)
  alive-node none h = cc
  alive-node (some n) h = (n, refl)

  pub put-alive :
      (cell : Ptr → Option (Node V)) (p : Ptr) (n m : Node V)
      → cell p ≡ some n
      → (a : Ptr) → alive (put cell p (some m) a) ≡ alive (cell a)
  unfolding put
  put-alive cell p n m e a = ground arith

  delete-runs :
      (h : Heap V) (p : Ptr)
      → p ≢ null
      → alive (h.cell p) ≡ true
      → delete p h ≡ returns tt (record h { cell = put h.cell p none })
  unfolding delete
  delete-runs h p ne there = ground arith

  pub pop_locked-empty :
      (h : Heap V) (s : Stack.Stack) → s.first ≡ null → Stack.pop_locked 1 s h ≡ returns (null, s) h
  unfolding Stack.pop_locked
  pop_locked-empty h s e = ground arith

  abbrev pub mpmc_stack_laws : StackLaws (mpmc_stack V)
  mpmc_stack_laws = record {
    Held = λ h s xs. Laws.Holds h s xs;
    elsewhere = λ h s xs p o bs is out. record {
      top = is.top;
      linked = frame h.cell null xs p o is.linked out;
    };
    distinct = λ h s x xs is. is.linked.1;
    pushed = λ h s xs p is ne there out.
        let (n, e) = alive-node (h.cell p) there in
        rw (Laws.push-runs h s p n ne e) (
          Laws.put_on h s xs p n is ne out,
          record { supplied = refl; living = put-alive h.cell p n (record n { next = s.first }) e },
        );
    popped = λ h s x xs is.
        let (ne, new', next, rest) = is.linked in
        let (n, e, to') = node_at (h.cell x) (first_or null xs) next in
        rw (Laws.pop_locked-runs 0 h s x n is.top ne e) (
          refl,
          ne,
          ap alive e,
          record { top = to'; linked = rest },
          record { supplied = refl; living = λ a. refl },
        );
    popped_none = λ h s is. rw (pop_locked-empty h s is.top) (refl, refl, is);
  }

-- Addresses for new objects: not NULL, different, and none of an object in the pool
abbrev pub Unused : List Ptr → List Ptr → Type 0
Unused [] xs = Unit {0}
Unused (p ∷ ps) xs = (p ≢ null) × (has p xs ≡ false) × Unused ps (p ∷ xs)

and_true : (a : Bool) → a ≡ a && true
and_true true = refl
and_true false = refl

without : (a b d : Bool) → (a && not b) && not d ≡ a && not (b || d)
without true true d = refl
without true false d = refl
without false b d = refl

module _ {V : Type 0} (c : Container V) (laws : StackLaws c) where
  put-none-alive :
      (cell : Ptr → Option (Node V)) (x a : Ptr)
      → alive (put cell x none a) ≡ alive (cell a) && not (a == x)
  unfolding put
  put-none-alive cell x a = ground arith

  put-some-alive :
      (cell : Ptr → Option (Node V)) (x : Ptr) (n : Node V) → alive (put cell x (some n) x) ≡ true
  unfolding put
  put-some-alive cell x n = ground arith

  new-runs :
      (h : Heap V) (v : V) (p : Ptr) (ps : List Ptr)
      → h.supply ≡ p ∷ ps
      → new v h
        ≡ returns p
            (record { cell = put h.cell p (some (record { value = v; next = null })); supply = ps })
  unfolding new
  new-runs h v p ps e = ground (arith, e)

  -- Over a container that keeps to the laws, the destructor of a pool that holds `xs` ends within one round
  -- more than there are objects, deletes the objects `xs`, and no others.
  pub destroy-frees :
      (k : ℕ) (h : Heap V) (s : c.State) (xs : List Ptr)
      → laws.Held h s xs
      → length xs < k
      → Ensures
          (λ _ h'. (a : Ptr) → alive (h'.cell a) ≡ alive (h.cell a) && not (has a xs))
          (destroy c k s h)
  unfolding destroy
  destroy-frees zero h s xs is enough = absurd (omega arith)
  destroy-frees (suc k) h s [] is enough =
      Ensures-bind _ (c.pop s h) _ (laws.popped_none h s is) (λ r h' (e, same, is').
        rw e (λ a. ap (λ z. alive (z.cell a)) same ∙ and_true (alive (h.cell a))))
  destroy-frees (suc k) h s (x ∷ xs) is enough =
      Ensures-bind _ (c.pop s h) _ (laws.popped h s x xs is) (λ r h' (e, ne, there, is', same).
        let h'' : Heap V = record h' { cell = put h'.cell x none } in
        rw (e, ne→== x null ne, e, delete-runs h' x ne (same.living x ∙ there))
          (Ensures-mono (destroy c k r.1 h'')
            (destroy-frees k h'' r.1 xs
              (laws.elsewhere h' r.1 xs x none h'.supply is' (laws.distinct h s x xs is))
              (omega arith))
            (λ _ h₃ freed a.
              freed a
              ∙ (ap (λ z. z && not (has a xs))
                    (put-none-alive h'.cell x a ∙ ap (λ z. z && not (a == x)) (same.living a))
                  ∙ without (alive (h.cell a)) (a == x) (has a xs)))))

  -- Over a container that keeps to the laws, `get` of a pool that holds `xs` gives the first of them, or,
  -- where there is none, a new object at the address that `new` gives next. The pool holds the others and
  -- not this one.
  pub get-takes :
      (v : V) (h : Heap V) (s : c.State) (xs : List Ptr) (p : Ptr) (ps : List Ptr)
      → laws.Held h s xs
      → h.supply ≡ p ∷ ps
      → p ≢ null
      → Ensures
          (λ r h'.
            (r.0 ≡ first_or p xs)
            × (alive (h'.cell r.0) ≡ true)
            × laws.Held h' r.1 (rest xs)
            × (has r.0 (rest xs) ≡ false))
          (get c v s h)
  unfolding get
  get-takes v h s [] p ps is e ne =
      Ensures-bind _ (c.pop s h) _ (laws.popped_none h s is) (λ r h' (gone, same, is').
        rw (gone, same, new-runs h v p ps e)
          (refl, put-some-alive h.cell p _, laws.elsewhere h r.1 [] p _ ps is' refl, refl))
  get-takes v h s (x ∷ xs) p ps is e ne =
      Ensures-bind _ (c.pop s h) _ (laws.popped h s x xs is) (λ r h' (got, ne', there, is', same).
        rw (got, ne→== x null ne')
          (
            got,
            ap (λ z. alive (h'.cell z)) got ∙ (same.living x ∙ there),
            is',
            ap (λ z. has z xs) got ∙ laws.distinct h s x xs is,
          ))

  -- Over a container that keeps to the laws, where `new` gives the unused addresses `ps` next, `allocate` of
  -- as many objects puts new objects at all of them into the pool, each before those that were there.
  pub allocate-Held :
      (v : V) (h : Heap V) (s : c.State) (xs ps bs : List Ptr)
      → laws.Held h s xs
      → Unused ps xs
      → h.supply ≡ ps ++ bs
      → Ensures
          (λ s' h'. laws.Held h' s' (pushed_onto ps xs) × (h'.supply ≡ bs))
          (allocate c (length ps) v s h)
  unfolding allocate
  allocate-Held v h s xs [] bs is unused e = (is, e)
  allocate-Held v h s xs (p ∷ ps) bs is (ne, out, unused) e =
      let n : Node V = record { value = v; next = null } in
      let h₁ : Heap V = record { cell = put h.cell p (some n); supply = ps ++ bs } in
      rw (new-runs h v p (ps ++ bs) e) (
        Ensures-bind _ (c.push s p h₁) _
          (laws.pushed h₁ s xs p (laws.elsewhere h s xs p (some n) (ps ++ bs) is out) ne
            (put-some-alive h.cell p n) out)
          (λ s' h' (is', same). allocate-Held v h' s' (p ∷ xs) ps bs is' unused same.supplied))
