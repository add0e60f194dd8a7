-- ===== src/Concurrent/Ring/Blocks.antt =====
-- The blocks that `create_new_empty_cycle` of src/Concurrent.hpp makes.
use icon.Prelude.{
  ℕ, zero, suc, ◌+◌, ◌-◌, ◌%◌, ◌≤◌, ◌<◌, ◌≡◌, refl, ap, ◌∙◌, ◌≢◌, Bool, true, false, ◌&&◌, Option,
  none, some, List, ◌∷◌, ltb, leb, ◌==◌, arith, Bool-cases, inl, inr,
}
use icon.NumberBuffer.{u64}
use icon.Concurrent.Memory.{Ptr, Node, Heap, put, Ensures}
use icon.Concurrent.Memory.Links.{
  next_of, set_next-runs, put_self, put_ne, Ensures-mono, Ensures-bind,
}
use icon.Concurrent.Memory.Calls.{node_of, Keeps-put}
use icon.Concurrent.Ring.{Queue, with_block, new_block, link_from, create_new_empty_cycle}

-- `a` is one of the `size` addresses from `b` on.
abbrev pub within : (b size : ℕ) → Ptr → Bool
within b size a = leb b a && ltb a (b + size)

-- The nodes of a block at `b` point to each other in a cycle from the `i`-th on, and else `h'` is `h`.
pub record Cycled {V : Type 0} (h h' : Heap V) (b i size : ℕ) : Type 0 where
  pub supplied : h'.supply ≡ h.supply
  pub others : (a : Ptr) → within (b + i) (size - i) a ≡ false → h'.cell a ≡ h.cell a
  pub cycle :
      (a : Ptr) → b + i ≤ a → a < b + size → next_of (h'.cell a) ≡ some (b + (a - b + 1) % size)

module _ {V : Type 0} where
  Cycled-step :
      (h h' : Heap V) (b i size : ℕ) (n : Node V)
      → i < size
      → Cycled
          (record h { cell = put h.cell (b + i) (some (record n { next = b + (i + 1) % size })) })
          h'
          b
          (i + 1)
          size
      → Cycled h h' b i size
  Cycled-step h h' b i size n lt c =
      let m : Node V = record n { next = b + (i + 1) % size } in
      record {
        supplied = c.supplied;
        others =
            λ a out. c.others a (ground arith) ∙ put_ne h.cell (b + i) a (some m) (ground arith);
        cycle = λ a lo hi. elim (Bool-cases (a == b + i)) [
          | inl t ↦
              let e : a ≡ b + i = ground arith in
              ap next_of (c.others a (ground arith))
              ∙ (ap (λ z. next_of (put h.cell (b + i) (some m) z)) e
                  ∙ (ap next_of (put_self h.cell (b + i) (some m))
                      ∙ ap (λ j. some (b + j % size)) (omega arith)))
          | inr f ↦ c.cycle a (ground arith) hi
        ];
      }

  link_from-Cycled :
      (left i size : ℕ) (b : Ptr) (h : Heap V)
      → i + left ≡ size
      → ((a : Ptr) → b ≤ a → a < b + size → next_of (h.cell a) ≢ none)
      → Ensures (λ _ h'. Cycled h h' b i size) (link_from left i size b h)
  unfolding link_from
  link_from-Cycled zero i size b h e there = record {
    supplied = refl;
    others = λ a out. refl;
    cycle = λ a lo hi. absurd (omega arith);
  }
  link_from-Cycled (suc left) i size b h e there =
      let (n, at) = node_of (h.cell (b + i)) (there (b + i) (omega arith) (omega arith)) in
      let m : Node V = record n { next = b + (i + 1) % size } in
      let h₁ : Heap V = record h { cell = put h.cell (b + i) (some m) } in
      rw (set_next-runs h (b + i) (b + (i + 1) % size) n at) (
        Ensures-mono (link_from left (i + 1) size b h₁)
          (link_from-Cycled left (i + 1) size b h₁ (omega arith)
            (λ a lo hi. Keeps-put h.cell h.cell (b + i) m (λ z k. k) a (there a lo hi)))
          (λ r h' c. Cycled-step h h' b i size n (omega arith) c))

  with_block-within :
      (cell : Ptr → Option (Node V)) (b size : ℕ) (v : V) (a : Ptr)
      → within b size a ≡ true
      → next_of (with_block cell b size v a) ≢ none
  unfolding with_block
  with_block-within cell b size v a h = ground arith

  with_block-others :
      (cell : Ptr → Option (Node V)) (b size : ℕ) (v : V) (a : Ptr)
      → within b size a ≡ false
      → with_block cell b size v a ≡ cell a
  unfolding with_block
  with_block-others cell b size v a h = ground arith

  -- The block is the next that `new` gives, its nodes form a cycle, and no other cell is changed.
  pub record Made (h h' : Heap V) (b size : ℕ) (bs : List Ptr) : Type 0 where
    pub supplied : h'.supply ≡ bs
    pub others : (a : Ptr) → within b size a ≡ false → h'.cell a ≡ h.cell a
    pub cycle :
        (a : Ptr) → b ≤ a → a < b + size → next_of (h'.cell a) ≡ some (b + (a - b + 1) % size)

  pub create_new_empty_cycle-Made :
      (v : V) (q : Queue) (h : Heap V) (b : Ptr) (bs : List Ptr)
      → h.supply ≡ b ∷ bs
      → Ensures
          (λ r h'.
            (r ≡ (b, record q { allocated = u64 (q.allocated + q.batch) }))
            × Made h h' b q.batch bs)
          (create_new_empty_cycle v q h)
  unfolding create_new_empty_cycle new_block
  create_new_empty_cycle-Made v q h b bs e =
      let h₁ : Heap V = record { cell = with_block h.cell b q.batch v; supply = bs } in
      rw e (
        Ensures-bind _ (link_from q.batch 0 q.batch b h₁) _
          (link_from-Cycled q.batch 0 q.batch b h₁ (omega arith)
            (λ a lo hi. with_block-within h.cell b q.batch v a (ground arith)))
          (λ r h' c. (
            refl,
            record {
              supplied = c.supplied;
              others =
                  λ a out. c.others a (ground arith) ∙ with_block-others h.cell b q.batch v a out;
              cycle = λ a lo hi. c.cycle a (omega arith) hi;
            },
          )))
