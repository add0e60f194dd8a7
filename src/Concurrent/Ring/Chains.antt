-- ===== src/Concurrent/Ring/Chains.antt =====
-- Chains of nodes that are split, joined and laid out in blocks, for the ring of src/Concurrent.hpp.
use icon.Prelude.{
  ℕ, zero, suc, ◌+◌, ◌≤◌, ◌<◌, ◌≡◌, refl, ap, ◌∙◌, sym, ◌≢◌, Bool, true, false, ◌||◌, ◌&&◌, Option,
  none, some, List, [], ◌∷◌, ◌++◌, length, ltb, leb, ◌==◌, arith, Bool-cases, inl, inr,
}
use icon.Concurrent.Memory.{Ptr, null, Node}
use icon.Concurrent.Memory.Links.{has, first_or, next_of, Linked, Apart, Apart-cons}

-- `n` addresses from `b` on
abbrev pub addresses : Ptr → ℕ → List Ptr
addresses b zero = []
addresses b (suc n) = b ∷ addresses (b + 1) n

pub has-addresses : (a b : Ptr) (n : ℕ) → has a (addresses b n) ≡ leb b a && ltb a (b + n)
has-addresses a b zero = ground arith
has-addresses a b (suc n) = ground (arith, has-addresses a (b + 1) n)

pub length-addresses : (b : Ptr) (n : ℕ) → length (addresses b n) ≡ n
length-addresses b zero = refl
length-addresses b (suc n) = ap suc (length-addresses (b + 1) n)

pub has-++ : (a : Ptr) (xs ys : List Ptr) → has a (xs ++ ys) ≡ has a xs || has a ys
has-++ a [] ys = refl
has-++ a (x ∷ xs) ys = ground (arith, has-++ a xs ys)

pub first_or-++ :
    (stop : Ptr) (xs ys : List Ptr) → first_or stop (xs ++ ys) ≡ first_or (first_or stop ys) xs
first_or-++ stop [] ys = refl
first_or-++ stop (x ∷ xs) ys = refl

pub Apart-[] : (xs : List Ptr) → Apart xs []
Apart-[] [] = tt
Apart-[] (x ∷ xs) = (refl, Apart-[] xs)

pub Apart-has : (a : Ptr) (xs ys : List Ptr) → Apart xs ys → has a ys ≡ true → has a xs ≡ false
Apart-has a [] ys h in' = refl
Apart-has a (x ∷ xs) ys (out, h) in' = elim (Bool-cases (a == x)) [
  | inl t ↦ absurd (ground (arith, out))
  | inr f ↦ rw (f, Apart-has a xs ys h in') refl
]

or_false : (a b : Bool) → a || b ≡ false → (a ≡ false) × (b ≡ false)
or_false true b h = cc
or_false false b h = (refl, h)

module _ {V : Type 0} where
  -- A chain stays one where its cells keep what they point to.
  pub Linked-agree :
      (cell cell' : Ptr → Option (Node V)) (stop : Ptr) (xs : List Ptr)
      → ((a : Ptr) → has a xs ≡ true → next_of (cell' a) ≡ next_of (cell a))
      → Linked cell stop xs
      → Linked cell' stop xs
  Linked-agree cell cell' stop [] same h = tt
  Linked-agree cell cell' stop (x ∷ xs) same (ne, new, to', rest) = (
    ne,
    new,
    same x (ground arith) ∙ to',
    Linked-agree cell cell' stop xs (λ a h. same a (ground arith)) rest,
  )

  pub Linked-++ :
      (cell : Ptr → Option (Node V)) (stop : Ptr) (xs ys : List Ptr)
      → Linked cell (first_or stop ys) xs
      → Linked cell stop ys
      → Apart xs ys
      → Linked cell stop (xs ++ ys)
  Linked-++ cell stop [] ys h h' apart = h'
  Linked-++ cell stop (x ∷ xs) ys (ne, new, to', rest) h' (out, apart) = (
    ne,
    rw (has-++ x xs ys, new, out) refl,
    rw (first_or-++ stop xs ys) to',
    Linked-++ cell stop xs ys rest h' apart,
  )

  pub Linked-split :
      (cell : Ptr → Option (Node V)) (stop : Ptr) (xs ys : List Ptr)
      → Linked cell stop (xs ++ ys)
      → Linked cell (first_or stop ys) xs × Linked cell stop ys × Apart xs ys
  Linked-split cell stop [] ys h = (tt, h, tt)
  Linked-split cell stop (x ∷ xs) ys (ne, new, to', rest) =
      let (front, back, apart) = Linked-split cell stop xs ys rest in
      let both : has x xs || has x ys ≡ false = sym (has-++ x xs ys) ∙ new in
      let first : first_or stop (xs ++ ys) ≡ first_or (first_or stop ys) xs =
        first_or-++ stop xs ys in
      let (in_front, in_back) = or_false _ _ both in
      ((ne, in_front, to' ∙ ap some first, front), back, (in_back, apart))

  -- Every node of a chain is there.
  pub Linked-node :
      (cell : Ptr → Option (Node V)) (stop : Ptr) (xs : List Ptr) (a : Ptr)
      → Linked cell stop xs
      → has a xs ≡ true
      → next_of (cell a) ≢ none
  Linked-node cell stop [] a is h = cc
  Linked-node cell stop (x ∷ xs) a (ne, new, to', rest) h = elim (Bool-cases (a == x)) [
    | inl t ↦ ground (arith, to')
    | inr f ↦ Linked-node cell stop xs a rest (ground arith)
  ]

  -- A chain has no node where there is none.
  pub Linked-Apart :
      (cell : Ptr → Option (Node V)) (stop : Ptr) (xs ys : List Ptr)
      → Linked cell stop xs
      → ((a : Ptr) → has a ys ≡ true → cell a ≡ none)
      → Apart xs ys
  Linked-Apart cell stop [] ys h fresh = tt
  Linked-Apart cell stop (x ∷ xs) ys (ne, new, to', rest) fresh = (
    elim (Bool-cases (has x ys)) [ inl t ↦ ground (arith, fresh x t, to') | inr f ↦ f ],
    Linked-Apart cell stop xs ys rest fresh,
  )

  -- The first node of a ring goes to its end.
  pub Linked-rotate :
      (cell : Ptr → Option (Node V)) (p q : Ptr) (ps : List Ptr)
      → Linked cell p (p ∷ q ∷ ps)
      → Linked cell q ((q ∷ ps) ++ (p ∷ []))
  Linked-rotate cell p q ps (ne, new, to', rest) =
      Linked-++ cell q (q ∷ ps) (p ∷ []) rest (ne, refl, to', tt)
        (Apart-cons p (q ∷ ps) [] new (Apart-[] (q ∷ ps)))

  pub Linked-addresses :
      (cell : Ptr → Option (Node V)) (stop b : Ptr) (n : ℕ)
      → b ≢ null
      → ((a : Ptr) → b ≤ a → a < b + n → next_of (cell a) ≡ some (a + 1))
      → next_of (cell (b + n)) ≡ some stop
      → Linked cell stop (addresses b (suc n))
  Linked-addresses cell stop b zero ne each end' =
      (ne, refl, ap (λ a. next_of (cell a)) (omega arith) ∙ end', tt)
  Linked-addresses cell stop b (suc n) ne each end' = (
    ne,
    rw (has-addresses b (b + 1) (suc n)) (ground arith),
    each b (omega arith) (omega arith),
    Linked-addresses cell stop (b + 1) n (omega arith)
        (λ a lo hi. each a (omega arith) (omega arith))
        (ap (λ a. next_of (cell a)) (omega arith) ∙ end'),
  )
