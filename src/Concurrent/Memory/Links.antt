-- ===== src/Concurrent/Memory/Links.antt =====
-- Chains of nodes, as lists of their addresses.
use icon.Prelude.{
  ◌≡◌, refl, ap, ◌≢◌, Bool, false, ◌||◌, Option, none, some, List, [], ◌∷◌, ◌==◌, arith,
}
use icon.Concurrent.Memory.{
  Ptr, null, Node, Heap, put, Run, returns, fault, running, no_memory, continue, Ensures, get_next,
  set_next,
}

abbrev pub has : Ptr → List Ptr → Bool
has a [] = false
has a (x ∷ xs) = (a == x) || has a xs

-- The first of `xs`, or `stop`
abbrev pub first_or : Ptr → List Ptr → Ptr
first_or stop [] = stop
first_or stop (x ∷ xs) = x

abbrev pub rest : List Ptr → List Ptr
rest [] = []
rest (x ∷ xs) = xs

-- What the cell of an address holds, so far as the containers look
abbrev pub next_of : {V : Type 0} → Option (Node V) → Option Ptr
next_of none = none
next_of (some n) = some n.next

-- The nodes `xs` are distinct, none is NULL, each points to the one after it, and the last to `stop`.
abbrev pub Linked : {V : Type 0} → (Ptr → Option (Node V)) → Ptr → List Ptr → Type 0
Linked cell stop [] = Unit {0}
Linked cell stop (x ∷ xs) =
    (x ≢ null)
    × (has x xs ≡ false)
    × (next_of (cell x) ≡ some (first_or stop xs))
    × Linked cell stop xs

module _ {V : Type 0} where
  -- A chain is not touched by a change elsewhere.
  pub frame :
      (cell : Ptr → Option (Node V)) (stop : Ptr) (xs : List Ptr) (p : Ptr) (c : Option (Node V))
      → Linked cell stop xs
      → has p xs ≡ false
      → Linked (put cell p c) stop xs
  unfolding put
  frame cell stop [] p c h out = tt
  frame cell stop (x ∷ xs) p c (ne, new, to', h) out =
      (ne, new, ground arith, frame cell stop xs p c h (ground arith))

  pub put_self : (cell : Ptr → Option (Node V)) (p : Ptr) (c : Option (Node V)) → put cell p c p ≡ c
  unfolding put
  put_self cell p c = ground arith

  pub put_ne :
      (cell : Ptr → Option (Node V)) (p a : Ptr) (c : Option (Node V))
      → a ≢ p
      → put cell p c a ≡ cell a
  unfolding put
  put_ne cell p a c h = ground arith

  pub Ensures-mono :
      {A : Type 0} {P Q : A → Heap V → Type 0} (r : Run V A)
      → Ensures P r
      → ((a : A) (h : Heap V) → P a h → Q a h)
      → Ensures Q r
  Ensures-mono (returns a h) p f = f a h p
  Ensures-mono fault p f = p
  Ensures-mono no_memory p f = p
  Ensures-mono running p f = p

  pub Ensures-bind :
      {A B : Type 0} {P : A → Heap V → Type 0} (Q : B → Heap V → Type 0) (r : Run V A)
      (f : A → Heap V → Run V B)
      → Ensures P r
      → ((a : A) (h : Heap V) → P a h → Ensures Q (f a h))
      → Ensures Q (continue r f)
  Ensures-bind Q (returns a h) f p g = g a h p
  Ensures-bind Q fault f p g = p
  Ensures-bind Q no_memory f p g = p
  Ensures-bind Q running f p g = p

  pub node_at :
      (c : Option (Node V)) (q : Ptr)
      → next_of c ≡ some q
      → (n : Node V) × (c ≡ some n) × (n.next ≡ q)
  node_at none q h = cc
  node_at (some n) q h = (n, refl, ground arith)

  -- A node that is made to point to the chain is put in front of it.
  pub link_front :
      (cell : Ptr → Option (Node V)) (stop : Ptr) (xs : List Ptr) (p q : Ptr) (n : Node V)
      → Linked cell stop xs
      → p ≢ null
      → has p xs ≡ false
      → q ≡ first_or stop xs
      → Linked (put cell p (some (record n { next = q }))) stop (p ∷ xs)
  link_front cell stop xs p q n h ne out e = (
    ne,
    out,
    rw (put_self cell p (some (record n { next = q }))) (ap some e),
    frame cell stop xs p (some (record n { next = q })) h out,
  )

-- No node of the first list is in the second.
abbrev pub Apart : List Ptr → List Ptr → Type 0
Apart [] xs = Unit {0}
Apart (y ∷ ys) xs = (has y xs ≡ false) × Apart ys xs

pub Apart-cons : (y : Ptr) (ys xs : List Ptr) → has y ys ≡ false → Apart ys xs → Apart ys (y ∷ xs)
Apart-cons y [] xs new h = tt
Apart-cons y (z ∷ ys) xs new (out, h) = (ground arith, Apart-cons y ys xs (ground arith) h)

-- What is left when the first list is pushed node by node onto the second.
abbrev pub pushed_onto : List Ptr → List Ptr → List Ptr
pushed_onto [] xs = xs
pushed_onto (y ∷ ys) xs = pushed_onto ys (y ∷ xs)

module _ {V : Type 0} where
  pub get_next-runs :
      (h : Heap V) (p q : Ptr) → next_of (h.cell p) ≡ some q → get_next p h ≡ returns q h
  unfolding get_next
  get_next-runs h p q e = ground arith

  pub set_next-runs :
      (h : Heap V) (p q : Ptr) (n : Node V)
      → h.cell p ≡ some n
      → set_next p q h
        ≡ returns tt (record h { cell = put h.cell p (some (record n { next = q })) })
  unfolding set_next
  set_next-runs h p q n e = ground arith

pub Apart-out : (y : Ptr) (ys xs : List Ptr) → Apart ys (y ∷ xs) → has y ys ≡ false
Apart-out y [] xs h = refl
Apart-out y (z ∷ ys) xs (out, h) = ground (arith, Apart-out y ys xs h)

pub Apart-tail : (y : Ptr) (ys xs : List Ptr) → Apart ys (y ∷ xs) → Apart ys xs
Apart-tail y [] xs h = tt
Apart-tail y (z ∷ ys) xs (out, h) = (ground arith, Apart-tail y ys xs h)
