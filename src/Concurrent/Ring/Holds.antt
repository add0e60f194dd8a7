-- ===== src/Concurrent/Ring/Holds.antt =====
-- What a ring of `spmc_queue` in src/Concurrent.hpp holds, and what `push` and `pop` do to it.
use icon.Prelude.{
  ℕ, suc, ◌+◌, ◌-◌, ◌^◌, ◌≤◌, ◌<◌, ◌≡◌, refl, ap, ◌∙◌, sym, ◌≢◌, true, false, Option, none, some,
  List, [], ◌∷◌, ◌++◌, length, length-append, arith, subst,
}
use icon.NumberBuffer.{u64}
use icon.Concurrent.Memory.{Ptr, null, Node, Heap, Ensures}
use icon.Concurrent.Memory.Links.{has, first_or, Linked, node_at, Ensures-mono}
use icon.Concurrent.Ring.{Queue, grow}
use icon.Concurrent.Ring.Chains.{addresses, length-addresses, has-++, Linked-split}
use icon.Concurrent.Ring.Blocks.{within}
use icon.Concurrent.Ring.Growth.{
  value_of, Joined, Joined-used, Joined-Linked, grow-Joined, grow-same,
}

-- The nodes have these values.
abbrev pub Filled : {V : Type 0} → (Ptr → Option (Node V)) → List Ptr → List V → Type 0
Filled cell [] [] = Unit {0}
Filled cell [] (x ∷ xs) = ⊥
Filled cell (p ∷ ps) [] = ⊥
Filled cell (p ∷ ps) (x ∷ xs) = (value_of (cell p) ≡ some x) × Filled cell ps xs

-- The ring is the nodes `used` with the values `xs`, the last node, and the nodes `free`.
pub record HoldsAt {V : Type 0} (h : Heap V) (q : Queue) (used free : List Ptr) (xs : List V)
    : Type 0 where
  pub ring : Linked h.cell q.first (used ++ (q.last ∷ free))
  pub front : q.first ≡ first_or q.last used
  pub filled : Filled h.cell used xs
  pub counted : q.allocated ≡ u64 (length (used ++ (q.last ∷ free)))

-- The blocks that `new` gives next are not NULL, not in use, and apart from each other.
abbrev pub Beside : (b size : ℕ) → List Ptr → Type 0
Beside b size [] = Unit {0}
Beside b size (c ∷ cs) =
    ((a : Ptr) → within c size a ≡ true → within b size a ≡ false) × Beside b size cs

abbrev pub Supplied : {V : Type 0} → (Ptr → Option (Node V)) → ℕ → List Ptr → Type 0
Supplied cell size [] = Unit {0}
Supplied cell size (b ∷ bs) =
    (b ≢ null)
    × ((a : Ptr) → within b size a ≡ true → cell a ≡ none)
    × Beside b size bs
    × Supplied cell size bs

module _ {V : Type 0} where
  pub Filled-agree :
      (cell cell' : Ptr → Option (Node V)) (ps : List Ptr) (xs : List V)
      → ((a : Ptr) → has a ps ≡ true → value_of (cell' a) ≡ value_of (cell a))
      → Filled cell ps xs
      → Filled cell' ps xs
  Filled-agree cell cell' [] [] same h = tt
  Filled-agree cell cell' [] (x ∷ xs) same h = h
  Filled-agree cell cell' (p ∷ ps) [] same h = absurd h
  Filled-agree cell cell' (p ∷ ps) (x ∷ xs) same (this, rest) = (
    same p (ground arith) ∙ this,
    Filled-agree cell cell' ps xs (λ a h. same a (ground arith)) rest,
  )

  pub Filled-snoc :
      (cell : Ptr → Option (Node V)) (ps : List Ptr) (xs : List V) (p : Ptr) (x : V)
      → Filled cell ps xs
      → value_of (cell p) ≡ some x
      → Filled cell (ps ++ (p ∷ [])) (xs ++ (x ∷ []))
  Filled-snoc cell [] [] p x h e = (e, tt)
  Filled-snoc cell [] (z ∷ xs) p x h e = absurd h
  Filled-snoc cell (y ∷ ps) [] p x h e = absurd h
  Filled-snoc cell (y ∷ ps) (z ∷ xs) p x (this, rest) e = (this, Filled-snoc cell ps xs p x rest e)

  -- Blocks stay unused where a block beside them is taken.
  pub Supplied-Beside :
      (cell cell' : Ptr → Option (Node V)) (b size : ℕ) (bs : List Ptr)
      → ((a : Ptr) → within b size a ≡ false → cell a ≡ none → cell' a ≡ none)
      → Beside b size bs
      → Supplied cell size bs
      → Supplied cell' size bs
  Supplied-Beside cell cell' b size [] keeps apart h = tt
  Supplied-Beside cell cell' b size (c ∷ cs) keeps (away, apart) (ne, fresh, beside, rest) = (
    ne,
    λ a in'. keeps a (away a in') (fresh a in'),
    beside,
    Supplied-Beside cell cell' b size cs keeps apart rest,
  )

  pub Supplied-keeps :
      (cell cell' : Ptr → Option (Node V)) (size : ℕ) (bs : List Ptr)
      → ((a : Ptr) → cell a ≡ none → cell' a ≡ none)
      → Supplied cell size bs
      → Supplied cell' size bs
  Supplied-keeps cell cell' size [] keeps h = tt
  Supplied-keeps cell cell' size (c ∷ cs) keeps (ne, fresh, beside, rest) =
      (ne, λ a in'. keeps a (fresh a in'), beside, Supplied-keeps cell cell' size cs keeps rest)

  pub last_node :
      (h : Heap V) (q : Queue) (used free : List Ptr) (xs : List V)
      → HoldsAt h q used free xs
      → (n : Node V) × (h.cell q.last ≡ some n) × (n.next ≡ first_or q.first free)
  last_node h q used free xs is =
      let (front, back, apart) = Linked-split h.cell q.first used (q.last ∷ free) is.ring in
      node_at (h.cell q.last) (first_or q.first free) back.2

  free_ne :
      (h : Heap V) (q : Queue) (used free : List Ptr) (f : Ptr) (xs : List V)
      → HoldsAt h q used (f ∷ free) xs
      → f ≢ q.first
  free_ne h q [] free f xs is = ground (arith, is.ring.1, is.front)
  free_ne h q (u ∷ us) free f xs is =
      ground (arith, is.ring.1, is.front, has-++ u us (q.last ∷ f ∷ free))

  -- The ring after `grow`, with a free node
  pub record Grown (q : Queue) (bs : List Ptr) (used : List Ptr) (xs : List V) (q' : Queue)
      (h' : Heap V) : Type 0 where
    pub spare : Ptr
    pub others : List Ptr
    pub holds : HoldsAt h' q' used (spare ∷ others) xs
    pub supplied : Supplied h'.cell q.batch h'.supply
    pub few : length bs ≤ length h'.supply + 1
    pub same_batch : q'.batch ≡ q.batch
    pub same_last : q'.last ≡ q.last

  grown :
      (h h' : Heap V) (q : Queue) (used : List Ptr) (xs : List V) (b : Ptr) (bs : List Ptr)
      → HoldsAt h q used [] xs
      → 0 < q.batch
      → Supplied h.cell q.batch (b ∷ bs)
      → h'.supply ≡ bs
      → Joined h.cell h'.cell q.first q.last b q.batch
      → Grown q (b ∷ bs) used xs (record q { allocated = u64 (q.allocated + q.batch) }) h'
  grown h h' q used xs b bs is lo (ne, fresh, beside, rest) left j =
      let (n, there, e) = last_node h q used [] xs is in
      let stays = Joined-used h.cell h'.cell q.first q.last b q.batch used j fresh is.ring in
      record {
        spare = b;
        others = addresses (b + 1) (q.batch - 1);
        holds = record {
          ring = Joined-Linked h.cell h'.cell q.first q.last b q.batch used j lo ne fresh is.ring;
          front = is.front;
          filled =
              Filled-agree h.cell h'.cell used xs (λ a in'. ap value_of (stays a in')) is.filled;
          counted = omega (
            arith,
            is.counted,
            length-append used (q.last ∷ []),
            length-append used (q.last ∷ addresses b (suc (q.batch - 1))),
            length-addresses (b + 1) (q.batch - 1),
          );
        };
        supplied = rw left (
            Supplied-Beside h.cell h'.cell b q.batch bs
              (λ a out fr. j.others a out (λ z. ground (arith, z, fr, there)) ∙ fr) beside rest);
        few = omega (arith, ap length left);
        same_batch = refl;
        same_last = refl;
      }

  -- Before it writes, `push` has a free node, of the ring or of a new block.
  pub grow-Grown :
      (v : V) (h : Heap V) (q : Queue) (used free : List Ptr) (xs : List V)
      → HoldsAt h q used free xs
      → 0 < q.batch
      → q.batch < 2 ^ 64
      → 0 < length h.supply
      → Supplied h.cell q.batch h.supply
      → Ensures (Grown q h.supply used xs) (grow v q h)
  grow-Grown v h q used (f ∷ fs) xs is lo hi enough supply =
      let (n, there, e) = last_node h q used (f ∷ fs) xs is in
      let more : n.next ≢ q.first = λ z. free_ne h q used fs f xs is (sym e ∙ z) in
      rw (grow-same v q h n there more) (record {
        spare = f;
        others = fs;
        holds = is;
        supplied = supply;
        few = omega arith;
        same_batch = refl;
        same_last = refl;
      })
  grow-Grown v h q used [] xs is lo hi enough supply = with_supply h.supply refl
    where
      with_supply :
          (bs : List Ptr) → h.supply ≡ bs → Ensures (Grown q h.supply used xs) (grow v q h)
      with_supply [] e = absurd (omega (arith, ap length e))
      with_supply (b ∷ bs) e =
          let (n, there, full) = last_node h q used [] xs is in
          let some_blocks = subst (λ z. Supplied h.cell q.batch z) e supply in
          subst (λ z. Ensures (Grown q z used xs) (grow v q h)) (sym e)
            (Ensures-mono (grow v q h) (grow-Joined v q h b bs n lo hi there full e some_blocks.1)
              (λ q' h' (r, left, j). rw r (grown h h' q used xs b bs is lo some_blocks left j)))
