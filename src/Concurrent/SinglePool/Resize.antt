-- ===== src/Concurrent/SinglePool/Resize.antt =====
-- What `resize` of `single_pool` leaves when it shrinks the pool.
use icon.Prelude.{
  ℕ, zero, suc, refl, Option, take, if◌then◌else◌, ◌+◌, ◌-◌, ◌/◌, ◌^◌, ◌≤◌, ◌<◌, ◌≡◌, ◌≢◌, none,
  some, List, [], ◌∷◌, length, drop, arith,
}
use native.Mathlib.Decide.{dec_lt}
use icon.Concurrent.Memory.{Ptr, null, Node, Heap, put, returns, Ensures, delete}
use icon.Concurrent.Memory.Links.{Ensures-mono, has, first_or, frame, node_at, put_self}
use icon.Concurrent.Linear.{Stack, pop}
use icon.Concurrent.Linear.Laws.{Holds, popped}
use icon.Concurrent.SinglePool.{free_from, resize}

module _ {V : Type 0} where
  -- Of the memory exactly the objects of the list are deleted.
  abbrev pub Frees : Heap V → List Ptr → Heap V → Type 0
  Frees h gone h' =
      ((a : Ptr) → h'.cell a ≡ (if has a gone then none else h.cell a)) × (h'.supply ≡ h.supply)

  -- The first `m` objects are deleted, and the others are in the pool.
  abbrev pub Shrunk : Heap V → List Ptr → ℕ → Stack → Heap V → Type 0
  Shrunk h xs m s' h' = Holds h' s' (drop m xs) × Frees h (take m xs) h'

  Frees-cons :
      (h h'' : Heap V) (x : Ptr) (c : Option (Node V)) (gone : List Ptr)
      → Frees (record h { cell = put (put h.cell x c) x none }) gone h''
      → Frees h (x ∷ gone) h''
  unfolding put
  Frees-cons h h'' x c gone (cells, same) = ((λ a. let e = cells a in ground (arith, e)), same)

  delete-runs :
      (h : Heap V) (p : Ptr) (n : Node V)
      → p ≢ null
      → h.cell p ≡ some n
      → delete p h ≡ returns tt (record h { cell = put h.cell p none })
  unfolding delete
  delete-runs h p n ne there = ground arith

  free_from-stop :
      (k i : ℕ) (h : Heap V) (s : Stack) → s.size ≤ i → free_from (suc k) i s h ≡ returns s h
  unfolding free_from
  free_from-stop k i h s le = ground arith

  free_from-next :
      (k i : ℕ) (h h' h'' : Heap V) (s s' : Stack) (x : Ptr)
      → i < s.size
      → pop s h ≡ returns (x, s') h'
      → delete x h' ≡ returns tt h''
      → free_from (suc k) i s h ≡ free_from k (i + 1) s' h''
  unfolding free_from
  free_from-next k i h h' h'' s s' x lt taken gone = ground (arith, taken, gone)

  free_from-Holds :
      (k i : ℕ) (h : Heap V) (s : Stack) (xs : List Ptr)
      → Holds h s xs
      → length xs + 1 < 2 ^ 64
      → length xs ≤ i + k
      → Ensures (Shrunk h xs ((length xs + 1 - i) / 2)) (free_from (suc k) i s h)
  free_from-Holds k i h s [] is room fuel =
      let none_left : (1 - i) / 2 ≡ 0 = omega arith in
      rw (free_from-stop k i h s (omega (arith, is.counted)), none_left) (is, ((λ a. refl), refl))
  free_from-Holds zero i h s (x ∷ xs) is room fuel =
      let none_left : (length (x ∷ xs) + 1 - i) / 2 ≡ 0 = omega arith in
      rw (free_from-stop zero i h s (omega (arith, is.counted)), none_left)
        (is, ((λ a. refl), refl))
  free_from-Holds (suc k) i h s (x ∷ xs) is room fuel = elim (dec_lt i (length (x ∷ xs))) [
    | no past ↦
        let none_left : (length (x ∷ xs) + 1 - i) / 2 ≡ 0 = omega arith in
        rw (free_from-stop (suc k) i h s (omega (arith, is.counted)), none_left)
          (is, ((λ a. refl), refl))
    | yes more ↦
        let (ne, new, to', rest) = is.linked in
        let (n, there, e) = node_at (h.cell x) (first_or null xs) to' in
        let (runs, is') = popped h s x xs n is there (omega arith) in
        let m : Node V = record n { next = null } in
        let cell' = put h.cell x (some m) in
        let gone = delete-runs (record h { cell = cell' }) x m ne (put_self h.cell x (some m)) in
        let half : (length (x ∷ xs) + 1 - i) / 2 ≡ suc ((length xs + 1 - (i + 1)) / 2) =
          omega arith in
        let tail =
          free_from-Holds k (i + 1) (record h { cell = put cell' x none }) _ xs
            (record {
              top = is'.top;
              linked = frame cell' null xs x none is'.linked new;
              counted = is'.counted;
            })
            (omega arith) (omega arith) in
        rw (free_from-next (suc k) i h _ _ s _ x (omega (arith, is.counted)) runs gone, half)
          (Ensures-mono {Q = Shrunk h (x ∷ xs) (suc ((length xs + 1 - (i + 1)) / 2))} _ tail
            (λ s' h' r. (r.0, Frees-cons h h' x (some m) _ r.1)))
  ]

  resize-fewer :
      (k n : ℕ) (v : V) (h : Heap V) (s : Stack)
      → n < s.size
      → resize (suc k) n v s h ≡ free_from (suc k) n s h
  unfolding resize
  resize-fewer k n v h s fewer = ground arith

  -- Shrinking a well-kept pool of more than `n` objects, and fewer than 2^64 - 1, to `n`, with enough rounds, ends. It
  -- deletes half of those that are too many, rounded up, from the top of the pool, changes no other cell of the
  -- memory, and keeps the rest well.
  pub resize-half :
      (k n : ℕ) (v : V) (h : Heap V) (s : Stack) (xs : List Ptr)
      → Holds h s xs
      → length xs + 1 < 2 ^ 64
      → n < length xs
      → length xs ≤ n + k
      → Ensures (Shrunk h xs ((length xs + 1 - n) / 2)) (resize (suc k) n v s h)
  resize-half k n v h s xs is room fewer fuel =
      rw (resize-fewer k n v h s (omega (arith, is.counted)))
        (free_from-Holds k n h s xs is room fuel)
