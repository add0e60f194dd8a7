-- ===== src/Concurrent/Memory/Calls.antt =====
-- Sequences of calls on a container of nodes.
use icon.Prelude.{◌≡◌, refl, ◌≢◌, Option, none, some, List, ◌∷◌, arith}
use icon.Concurrent.Memory.{
  Ptr, Node, Heap, put, Run, returns, running, no_memory, fault, pure, continue, Ensures,
}
use icon.Concurrent.Memory.Links.{next_of}

-- Calls of `push` and `pop`
pub data Op : Type 0 where
  put_on : Ptr → Op
  take_off : Op

module _ {V : Type 0} where
  -- Nodes stay nodes.
  abbrev pub Keeps : (Ptr → Option (Node V)) → (Ptr → Option (Node V)) → Type 0
  Keeps before cell = (a : Ptr) → next_of (before a) ≢ none → next_of (cell a) ≢ none

  pub Keeps-put :
      (before cell : Ptr → Option (Node V)) (p : Ptr) (n : Node V)
      → Keeps before cell
      → Keeps before (put cell p (some n))
  unfolding put
  Keeps-put before cell p n keeps a h = ground (arith, keeps a h)

  pub node_of : (c : Option (Node V)) → next_of c ≢ none → (n : Node V) × (c ≡ some n)
  node_of none h = absurd (h refl)
  node_of (some n) h = (n, refl)

  -- What `run` gives from here on, put in front by a `pop`
  pub with_reply :
      {S R : Type 0} (p : R) (P : S × List R → Heap V → Type 0) (r : Run V (S × List R))
      → Ensures (λ o h. P (o.0, p ∷ o.1) h) r
      → Ensures P (continue r (λ o. pure (o.0, p ∷ o.1)))
  with_reply p P (returns o h) q = q
  with_reply p P fault q = q
  with_reply p P no_memory q = q
  with_reply p P running q = q
