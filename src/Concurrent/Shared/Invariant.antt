-- ===== src/Concurrent/Shared/Invariant.antt =====
-- What holds between the steps of the threads on a `mpsc_stack`.
use icon.Prelude.{ℕ, ◌≡◌, sym, subst, ◌≢◌, true, false, some, List, [], ◌∷◌, ◌==◌, arith, ne→==}
use native.Mathlib.Decide.{ℕ_discrete}
use icon.Concurrent.Memory.{Ptr, null}
use icon.Concurrent.Memory.Links.{has, first_or}
use icon.Concurrent.Shared.{
  Memory, set_next, Place, idle, push_load, push_store, push_swap, pop_load, pop_next, pop_swap,
  pop_clear, all_load, all_swap, holds, System, replay, update,
}

-- From the first of `xs` the fields `__m_next` lead through all of `xs`, which are distinct, to NULL.
abbrev pub Chain : (Ptr → Ptr) → List Ptr → Type 0
Chain next [] = Unit {0}
Chain next (x ∷ xs) = (x ≢ null) × (has x xs ≡ false) × (next x ≡ first_or null xs) × Chain next xs

-- What a thread may rely on at its place: the node that it pushes, or has popped, is not in the stack; the
-- node that it is about to pop is in the stack, and only thread 0 pops.
abbrev pub Local : (Ptr → Ptr) → List Ptr → ℕ → Place → Type 0
Local next xs i idle = Unit {0}
Local next xs i (push_load p) = (p ≢ null) × (has p xs ≡ false)
Local next xs i (push_store p f) = (p ≢ null) × (has p xs ≡ false)
Local next xs i (push_swap p) = (p ≢ null) × (has p xs ≡ false)
Local next xs i pop_load = i ≡ 0
Local next xs i (pop_next v) = (i ≡ 0) × (has v xs ≡ true)
Local next xs i (pop_swap v n) = (i ≡ 0) × (has v xs ≡ true) × (next v ≡ n)
Local next xs i (pop_clear v) = (i ≡ 0) × (v ≢ null) × (has v xs ≡ false)
Local next xs i all_load = i ≡ 0
Local next xs i (all_swap v) = i ≡ 0

pub record IsConsistent (s : System) (xs : List Ptr) : Type 0 where
  pub replayed : replay s.log ≡ some xs
  pub top : s.memory.first ≡ first_or null xs
  pub chain : Chain s.memory.next xs
  pub at_place : (i : ℕ) → Local s.memory.next xs i (s.place i)
  pub alone : (i j : ℕ) (p : Ptr) → holds (s.place i) p ≡ true → holds (s.place j) p ≡ true → i ≡ j

pub Chain_frame :
    (m : Memory) (xs : List Ptr) (p q : Ptr)
    → Chain m.next xs
    → has p xs ≡ false
    → Chain (set_next m p q).next xs
unfolding set_next
Chain_frame m [] p q h out = tt
Chain_frame m (x ∷ xs) p q (ne, new, to', h) out =
    (ne, new, ground arith, Chain_frame m xs p q h (ground arith))

-- A write to a node outside the stack leaves alone what the threads rely on.
pub Local-frame :
    (m : Memory) (xs : List Ptr) (i : ℕ) (x : Place) (p q : Ptr)
    → has p xs ≡ false
    → Local m.next xs i x
    → Local (set_next m p q).next xs i x
unfolding set_next
Local-frame m xs i idle p q out h = h
Local-frame m xs i (push_load a) p q out h = h
Local-frame m xs i (push_store a f) p q out h = h
Local-frame m xs i (push_swap a) p q out h = h
Local-frame m xs i pop_load p q out h = h
Local-frame m xs i (pop_next v) p q out h = h
Local-frame m xs i (pop_swap v n) p q out (zero_th, inside, e) =
    (zero_th, inside, elim (ℕ_discrete v p) [ yes w ↦ cc | no w ↦ ground arith ])
Local-frame m xs i (pop_clear v) p q out h = h
Local-frame m xs i all_load p q out h = h
Local-frame m xs i (all_swap v) p q out h = h

-- A node pushed by one thread stays out of the hands of the others.
pub Local-push :
    (next : Ptr → Ptr) (xs : List Ptr) (i : ℕ) (x : Place) (p : Ptr)
    → holds x p ≡ false
    → Local next xs i x
    → Local next (p ∷ xs) i x
unfolding holds
Local-push next xs i idle p free h = h
Local-push next xs i (push_load a) p free (ne, out) = (ne, ground arith)
Local-push next xs i (push_store a f) p free (ne, out) = (ne, ground arith)
Local-push next xs i (push_swap a) p free (ne, out) = (ne, ground arith)
Local-push next xs i pop_load p free h = h
Local-push next xs i (pop_next v) p free (zero_th, inside) = (zero_th, ground arith)
Local-push next xs i (pop_swap v n) p free (zero_th, inside, e) = (zero_th, ground arith, e)
Local-push next xs i (pop_clear v) p free (zero_th, ne, out) = (zero_th, ne, ground arith)
Local-push next xs i all_load p free h = h
Local-push next xs i (all_swap v) p free h = h

-- Threads other than 0 are not touched by what is taken out of the stack.
pub Local-take :
    (next : Ptr → Ptr) (xs ys : List Ptr) (i : ℕ) (x : Place)
    → i ≢ 0
    → ((a : Ptr) → has a xs ≡ false → has a ys ≡ false)
    → Local next xs i x
    → Local next ys i x
Local-take next xs ys i idle other less h = h
Local-take next xs ys i (push_load a) other less (ne, out) = (ne, less a out)
Local-take next xs ys i (push_store a f) other less (ne, out) = (ne, less a out)
Local-take next xs ys i (push_swap a) other less (ne, out) = (ne, less a out)
Local-take next xs ys i pop_load other less h = absurd (other h)
Local-take next xs ys i (pop_next v) other less (z, _) = absurd (other z)
Local-take next xs ys i (pop_swap v n) other less (z, _, _) = absurd (other z)
Local-take next xs ys i (pop_clear v) other less (z, _, _) = absurd (other z)
Local-take next xs ys i all_load other less h = absurd (other h)
Local-take next xs ys i (all_swap v) other less h = absurd (other h)

-- Where a thread moves, what holds of its new place and of the other threads' places holds of all.
pub update-all :
    (P : ℕ → Place → Type 0) (f : ℕ → Place) (i : ℕ) (x : Place)
    → P i x
    → ((j : ℕ) → j ≢ i → P j (f j))
    → (j : ℕ) → P j (update f i x j)
unfolding update
update-all P f i x here elsewhere j = elim (ℕ_discrete j i) [
  | yes e ↦ rw (let same : (j == i) ≡ true = ground arith in same) (subst (λ k. P k x) (sym e) here)
  | no n ↦ rw (ne→== j i n) (elsewhere j n)
]

-- A thread that holds no more than it did leaves every node to one thread.
pub alone_update :
    (f : ℕ → Place) (i : ℕ) (x : Place)
    → ((i j : ℕ) (p : Ptr) → holds (f i) p ≡ true → holds (f j) p ≡ true → i ≡ j)
    → ((p : Ptr) (j : ℕ) → j ≢ i → holds x p ≡ true → holds (f j) p ≡ false)
    → (j k : ℕ) (p : Ptr) → holds (update f i x j) p ≡ true
    → holds (update f i x k) p ≡ true
    → j ≡ k
unfolding update
alone_update f i x alone fresh j k p h g = ground (arith, alone j k p, fresh p j, fresh p k)
