-- ===== src/Concurrent/Ring/Threads/Shape.antt =====
-- What holds of the ring of `spmc_queue` in src/Concurrent.hpp between the steps of threads, one of which pops.
use icon.Prelude.{
  ℕ, suc, ◌-◌, ◌≡◌, refl, ap, ◌∙◌, sym, ◌≢◌, true, false, some, List, [], ◌∷◌, ◌++◌, arith, subst,
}
use icon.Concurrent.Memory.{Ptr}
use icon.Concurrent.Memory.Links.{has, first_or, next_of, Linked}
use icon.Concurrent.Ring.Chains.{addresses}
use icon.Concurrent.Ring.Growth.{value_of}
use icon.Concurrent.Ring.Holds.{Filled}
use icon.Concurrent.Ring.Threads.{
  Memory, Giver, resting, loading, checking, allocating, closing, publishing, storing, advancing,
  Taker, outside, looking, comparing, reading, following, swapping, System, After,
}

-- No node of the second list is in the first.
abbrev pub Clear : List Ptr → List Ptr → Type 0
Clear xs ys = (a : Ptr) → has a ys ≡ true → has a xs ≡ false

-- The nodes of a block
abbrev pub nodes : (b size : ℕ) → List Ptr
nodes b size = addresses b (suc (size - 1))

-- A block that is closed leads to the first node: to the nodes `kept` that were freed since it was closed,
-- where there are such. The nodes before them are lost when it is published.
pub record Closed {V : Type 0} (size : ℕ) (m : Memory V) (free : List Ptr) (b : Ptr) : Type 0 where
  pub lost : List Ptr
  pub kept : List Ptr
  pub split : free ≡ lost ++ kept
  pub chain : Linked m.cell (first_or m.first kept) (nodes b size)

-- What the thread that pushes knows, where the nodes `used` hold values and `free` do not.
abbrev pub AtGiver : {V : Type 0} → ℕ → Memory V → (used free : List Ptr) → Giver V → Type 0
AtGiver size m used free resting = Unit {0}
AtGiver size m used free (loading v) = Unit {0}
AtGiver size m used free (checking v l) = l ≡ m.last
AtGiver size m used free (allocating v l) = l ≡ m.last
AtGiver size m used free (closing v l b) =
    (l ≡ m.last) × Linked m.cell b (nodes b size) × Clear (used ++ (m.last ∷ free)) (nodes b size)
AtGiver size m used free (publishing v l b) =
    (l ≡ m.last) × Closed size m free b × Clear (used ++ (m.last ∷ free)) (nodes b size)
AtGiver size m used free (storing v l) = (l ≡ m.last) × (free ≢ [])
AtGiver size m used free (advancing v l) =
    (l ≡ m.last) × (free ≢ []) × (value_of (m.cell l) ≡ some v)

-- What the thread that pops knows
abbrev pub AtTaker : {V : Type 0} → Memory V → (used : List Ptr) → Taker V → Type 0
AtTaker m used outside = Unit {0}
AtTaker m used looking = Unit {0}
AtTaker m used (comparing f) = f ≡ m.first
AtTaker m used (reading f) = (f ≡ m.first) × (used ≢ [])
AtTaker m used (following f x) = (f ≡ m.first) × (used ≢ []) × (value_of (m.cell f) ≡ some x)
AtTaker m used (swapping f x n) =
    (f ≡ m.first) × (used ≢ []) × (value_of (m.cell f) ≡ some x) × (next_of (m.cell f) ≡ some n)

-- The ring is the nodes `used` with the values `xs`, the last node, and the nodes `free`.
pub record IsRing {V : Type 0} (m : Memory V) (used free : List Ptr) (xs : List V) : Type 0 where
  pub ring : Linked m.cell m.first (used ++ (m.last ∷ free))
  pub front : m.first ≡ first_or m.last used
  pub filled : Filled m.cell used xs

pub record IsConsistent {V : Type 0} (size : ℕ) (s : System V) (used free : List Ptr) (xs : List V)
    : Type 0 where
  pub history : After s.log xs
  pub shape : IsRing s.memory used free xs
  pub at_giver : AtGiver size s.memory used free s.giver
  pub at_taker : AtTaker s.memory used (s.taker 0)
  pub alone : (i : ℕ) → i ≢ 0 → s.taker i ≡ outside

pub snoc_ne : (xs : List Ptr) (x : Ptr) → xs ++ (x ∷ []) ≢ []
snoc_ne [] x = λ e. cc
snoc_ne (y ∷ ys) x = λ e. cc

module _ {V : Type 0} where
  -- The front of the ring is one of the nodes with values, where there are such.
  pub first-used :
      (m : Memory V) (used : List Ptr)
      → m.first ≡ first_or m.last used
      → used ≢ []
      → has m.first used ≡ true
  first-used m [] e ne = absurd (ne refl)
  first-used m (u ∷ us) e ne = ground (arith, e)

  -- The nodes with values are not touched by a change elsewhere.
  pub AtTaker-agree :
      (m m' : Memory V) (used : List Ptr) (t : Taker V)
      → m'.first ≡ m.first
      → m.first ≡ first_or m.last used
      → ((a : Ptr) → has a used ≡ true → m'.cell a ≡ m.cell a)
      → AtTaker m used t
      → AtTaker m' used t
  AtTaker-agree m m' used outside e front same h = tt
  AtTaker-agree m m' used looking e front same h = tt
  AtTaker-agree m m' used (comparing f) e front same h = h ∙ sym e
  AtTaker-agree m m' used (reading f) e front same (h, ne) = (h ∙ sym e, ne)
  AtTaker-agree m m' used (following f x) e front same (h, ne, value) =
      let stays : m'.cell f ≡ m.cell f =
        same f (subst (λ a. has a used ≡ true) (sym h) (first-used m used front ne)) in
      (h ∙ sym e, ne, ap value_of stays ∙ value)
  AtTaker-agree m m' used (swapping f x n) e front same (h, ne, value, next) =
      let stays : m'.cell f ≡ m.cell f =
        same f (subst (λ a. has a used ≡ true) (sym h) (first-used m used front ne)) in
      (h ∙ sym e, ne, ap value_of stays ∙ value, ap next_of stays ∙ next)

  -- More nodes with values, and another last node, make no difference to the thread that pops.
  pub AtTaker-more :
      (m : Memory V) (last : Ptr) (used : List Ptr) (l : Ptr) (t : Taker V)
      → AtTaker m used t
      → AtTaker (record m { last = last }) (used ++ (l ∷ [])) t
  AtTaker-more m last used l outside h = tt
  AtTaker-more m last used l looking h = tt
  AtTaker-more m last used l (comparing f) h = h
  AtTaker-more m last used l (reading f) (h, ne) = (h, snoc_ne used l)
  AtTaker-more m last used l (following f x) (h, ne, v) = (h, snoc_ne used l, v)
  AtTaker-more m last used l (swapping f x n) (h, ne, v, e) = (h, snoc_ne used l, v, e)
