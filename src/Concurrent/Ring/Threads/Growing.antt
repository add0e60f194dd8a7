-- ===== src/Concurrent/Ring/Threads/Growing.antt =====
-- How a new block gets into the ring of `spmc_queue` in src/Concurrent.hpp, step by step.
use icon.Prelude.{
  ℕ, zero, suc, ◌+◌, ◌-◌, ◌%◌, ◌<◌, ◌≡◌, refl, ap, ◌∙◌, sym, ◌≢◌, true, false, ◌||◌, Option, none,
  some, List, [], ◌∷◌, ◌++◌, append-nil, ◌==◌, arith, Bool-cases, inl, inr, subst,
}
use native.Mathlib.Nat.{mod-eq_of_lt, mod_self}
use icon.Concurrent.Memory.{Ptr, null, Node, put}
use icon.Concurrent.Memory.Links.{has, first_or, next_of, Linked, Apart, node_at, put_self, put_ne}
use icon.Concurrent.Ring.Blocks.{within}
use icon.Concurrent.Ring.Chains.{
  addresses, has-addresses, has-++, Linked-agree, Linked-++, Linked-split, Linked-node,
  Linked-addresses, Apart-has,
}
use icon.Concurrent.Ring.Growth.{value_of}
use icon.Concurrent.Ring.Holds.{Filled-agree}
use icon.Concurrent.Ring.Threads.{Memory, with_cycle}
use icon.Concurrent.Ring.Threads.Shape.{Clear, nodes, Closed, IsRing}

Apart-Clear : (xs ys : List Ptr) → Clear xs ys → Apart xs ys
Apart-Clear [] ys h = tt
Apart-Clear (x ∷ xs) ys h = (
  elim (Bool-cases (has x ys)) [ inl t ↦ ground (arith, h x t) | inr f ↦ f ],
  Apart-Clear xs ys (λ a in'. ground (arith, h a in')),
)

pub in_nodes : (a b size : ℕ) → 0 < size → has a (nodes b size) ≡ within b size a
in_nodes a b size lo = ground (arith, has-addresses a b (suc (size - 1)))

pub end_within : (b size : ℕ) → 0 < size → within b size (b + (size - 1)) ≡ true
end_within b size lo = ground arith

pub has_self : (a b : ℕ) (xs : List Ptr) → a ≡ b → has b xs ≡ false → has a xs ≡ true → ⊥
has_self a b xs e out in' = cc

still_has :
    (a last : Ptr) (bs kept free : List Ptr)
    → has a (last ∷ (bs ++ kept)) ≡ true
    → has a bs ≡ false
    → (has a kept ≡ true → has a free ≡ true)
    → has a (last ∷ free) ≡ true
still_has a last bs kept free h out more = elim (Bool-cases (a == last)) [
  | inl t ↦ rw t refl
  | inr f ↦ rw (f, more (ground (arith, h, f, out, has-++ a bs kept))) refl
]

addresses-snoc : (b n : ℕ) → addresses b (suc n) ≡ addresses b n ++ ((b + n) ∷ [])
addresses-snoc b zero = ap (λ a. a ∷ []) (omega arith)
addresses-snoc b (suc n) =
    ap (λ l. b ∷ l)
      (addresses-snoc (b + 1) n ∙ ap (λ a. addresses (b + 1) n ++ (a ∷ [])) (omega arith))

module _ {V : Type 0} where
  -- What the split of the ring says of the last node
  pub record Split (m : Memory V) (used free : List Ptr) : Type 0 where
    pub before : Linked m.cell m.last used
    pub node : Node V
    pub there : m.cell m.last ≡ some node
    pub leads : node.next ≡ first_or m.first free
    pub real : m.last ≢ null
    pub out_free : has m.last free ≡ false
    pub behind : Linked m.cell m.first free
    pub out_used : has m.last used ≡ false
    pub apart : Apart used (m.last ∷ free)

  pub Split-IsRing :
      (m : Memory V) (used free : List Ptr) (xs : List V)
      → IsRing m used free xs
      → Split m used free
  Split-IsRing m used free xs is =
      let (front, back, apart) = Linked-split m.cell m.first used (m.last ∷ free) is.ring in
      let (ne, out, to', rest) = back in
      let (n, there, e) = node_at (m.cell m.last) (first_or m.first free) to' in
      record {
        before = front;
        node = n;
        there = there;
        leads = e;
        real = ne;
        out_free = out;
        behind = rest;
        out_used = Apart-has m.last used (m.last ∷ free) apart (ground arith);
        apart = apart;
      }

  -- A change of nodes outside the ring
  pub elsewhere :
      (m : Memory V) (cell' : Ptr → Option (Node V)) (used free : List Ptr) (xs : List V)
      → ((a : Ptr) → has a (used ++ (m.last ∷ free)) ≡ true → cell' a ≡ m.cell a)
      → IsRing m used free xs
      → IsRing (record m { cell = cell' }) used free xs
  elsewhere m cell' used free xs same is = record {
    ring =
        Linked-agree m.cell cell' m.first (used ++ (m.last ∷ free)) (λ a h. ap next_of (same a h))
          is.ring;
    front = is.front;
    filled =
        Filled-agree m.cell cell' used xs
          (λ a h. ap value_of (same a (ground (arith, has-++ a used (m.last ∷ free))))) is.filled;
  }

  pub fresh_out :
      (m : Memory V) (b size : ℕ) (used free : List Ptr) (xs : List V)
      → ((a : Ptr) → within b size a ≡ true → m.cell a ≡ none)
      → IsRing m used free xs
      → (a : Ptr) → has a (used ++ (m.last ∷ free)) ≡ true
      → within b size a ≡ false
  fresh_out m b size used free xs fresh is a h = elim (Bool-cases (within b size a)) [
    | inl t ↦
        absurd (
          Linked-node m.cell m.first (used ++ (m.last ∷ free)) a is.ring h (ap next_of (fresh a t)))
    | inr f ↦ f
  ]

  pub with_cycle-others :
      (cell : Ptr → Option (Node V)) (b size : ℕ) (d : V) (a : Ptr)
      → within b size a ≡ false
      → with_cycle cell b size d a ≡ cell a
  unfolding with_cycle
  with_cycle-others cell b size d a h = ground arith

  with_cycle-next :
      (cell : Ptr → Option (Node V)) (b size : ℕ) (d : V) (a : Ptr)
      → within b size a ≡ true
      → next_of (with_cycle cell b size d a) ≡ some (b + (a - b + 1) % size)
  unfolding with_cycle
  with_cycle-next cell b size d a h = ground arith

  -- A new block is a cycle.
  pub cycle-Linked :
      (cell : Ptr → Option (Node V)) (b size : ℕ) (d : V)
      → 0 < size
      → b ≢ null
      → Linked (with_cycle cell b size d) b (nodes b size)
  cycle-Linked cell b size d lo ne =
      Linked-addresses (with_cycle cell b size d) b b (size - 1) ne
        (λ a from to'.
          with_cycle-next cell b size d a (ground arith)
          ∙ ap some (ap (λ j. b + j) (mod-eq_of_lt (omega arith)) ∙ omega arith))
        (with_cycle-next cell b size d (b + (size - 1)) (ground arith)
          ∙ ap some (
              ap (λ j. b + j % size) (omega arith)
              ∙ (ap (λ j. b + j) (mod_self size) ∙ omega arith)))

  -- The ring after `allocate`, and the block
  pub allocated :
      (m : Memory V) (b size : ℕ) (d : V) (used free : List Ptr) (xs : List V)
      → 0 < size
      → ((a : Ptr) → within b size a ≡ true → m.cell a ≡ none)
      → IsRing m used free xs
      → IsRing (record m { cell = with_cycle m.cell b size d }) used free xs
        × Clear (used ++ (m.last ∷ free)) (nodes b size)
  allocated m b size d used free xs lo fresh is = (
    elsewhere m (with_cycle m.cell b size d) used free xs
        (λ a h. with_cycle-others m.cell b size d a (fresh_out m b size used free xs fresh is a h))
        is,
    λ a h. elim (Bool-cases (has a (used ++ (m.last ∷ free)))) [
      | inl t ↦ ground (arith, in_nodes a b size lo, fresh_out m b size used free xs fresh is a t)
      | inr f ↦ f
    ],
  )

  -- The end of a block is made to point to `p`.
  relinked :
      (cell : Ptr → Option (Node V)) (b n p : Ptr) (o : Node V)
      → Linked cell b (addresses b (suc n))
      → Linked (put cell (b + n) (some (record o { next = p }))) p (addresses b (suc n))
  relinked cell b n p o h =
      let e : ℕ = b + n in
      let cell' = put cell e (some (record o { next = p })) in
      let (front, (ne, out, to', rest), apart) =
        Linked-split cell b (addresses b n) (e ∷ [])
          (subst (λ l. Linked cell b l) (addresses-snoc b n) h) in
      let clear : has e (addresses b n) ≡ false =
        Apart-has e (addresses b n) (e ∷ []) apart (ground arith) in
      subst (λ l. Linked cell' p l) (sym (addresses-snoc b n))
        (Linked-++ cell' p (addresses b n) (e ∷ [])
          (Linked-agree cell cell' e (addresses b n)
            (λ a in'. ap next_of (put_ne cell e a _ (λ z. ground (arith, z, in', clear)))) front)
          (ne, refl, ap next_of (put_self cell e _), tt) apart)

  -- The ring after `close`, and the block
  pub closed :
      (m : Memory V) (b size : ℕ) (o : Node V) (used free : List Ptr) (xs : List V)
      → 0 < size
      → m.cell (b + (size - 1)) ≡ some o
      → Linked m.cell b (nodes b size)
      → Clear (used ++ (m.last ∷ free)) (nodes b size)
      → IsRing m used free xs
      → let m' : Memory V = record m {
        cell = put m.cell (b + (size - 1)) (some (record o { next = m.first }));
      } in
        IsRing m' used free xs × Closed size m' free b
  closed m b size o used free xs lo there chain clear is =
      let e : ℕ = b + (size - 1) in
      let inside : has e (nodes b size) ≡ true = in_nodes e b size lo ∙ end_within b size lo in
      (
        elsewhere m (put m.cell e (some (record o { next = m.first }))) used free xs
            (λ a h. put_ne m.cell e a _ (λ z. ground (arith, z, h, clear e inside))) is,
        record {
          lost = free;
          kept = [];
          split = sym (append-nil free);
          chain = relinked m.cell b (size - 1) m.first o chain;
        },
      )

  -- The ring after `publish`
  pub published :
      (m : Memory V) (b size : ℕ) (o : Node V) (used free : List Ptr) (xs : List V)
      → 0 < size
      → m.cell m.last ≡ some o
      → (c : Closed size m free b) → Clear (used ++ (m.last ∷ free)) (nodes b size)
      → IsRing m used free xs
      → IsRing
          (record m { cell = put m.cell m.last (some (record o { next = b })) })
          used
          (nodes b size ++ c.kept)
          xs
  published m b size o used free xs lo there c clear is =
      let s = Split-IsRing m used free xs is in
      let cell' = put m.cell m.last (some (record o { next = b })) in
      let bs = nodes b size in
      let stays : (xs : List Ptr)
          → has m.last xs ≡ false
          → (a : Ptr) → has a xs ≡ true
          → cell' a ≡ m.cell a =
        λ xs out a in'. put_ne m.cell m.last a _ (λ z. has_self a m.last xs z out in') in
      let (lost, behind, apart) =
        Linked-split m.cell m.first c.lost c.kept
          (subst (λ l. Linked m.cell m.first l) c.split s.behind) in
      let members : (a : Ptr) → has a free ≡ has a c.lost || has a c.kept =
        λ a. ap (has a) c.split ∙ has-++ a c.lost c.kept in
      let ring_members : (a : Ptr)
          → has a (used ++ (m.last ∷ free)) ≡ has a used || has a (m.last ∷ free) =
        λ a. has-++ a used (m.last ∷ free) in
      let last_kept : has m.last c.kept ≡ false = ground (arith, s.out_free, members m.last) in
      let last_block : has m.last bs ≡ false = elim (Bool-cases (has m.last bs)) [
        | inl t ↦ ground (arith, clear m.last t, ring_members m.last)
        | inr f ↦ f
      ] in
      let block_kept : Clear bs c.kept = λ a in'. elim (Bool-cases (has a bs)) [
        | inl t ↦ ground (arith, clear a t, ring_members a, members a)
        | inr f ↦ f
      ] in
      let kept' : Linked cell' m.first c.kept =
        Linked-agree m.cell cell' m.first c.kept (λ a h. ap next_of (stays c.kept last_kept a h))
          behind in
      let block' : Linked cell' m.first (bs ++ c.kept) =
        Linked-++ cell' m.first bs c.kept
          (Linked-agree m.cell cell' (first_or m.first c.kept) bs
            (λ a h. ap next_of (stays bs last_block a h)) c.chain)
          kept' (Apart-Clear bs c.kept block_kept) in
      let out : has m.last (bs ++ c.kept) ≡ false =
        ground (arith, has-++ m.last bs c.kept, last_block, last_kept) in
      let clear_used : Clear used (m.last ∷ (bs ++ c.kept)) = λ a in'.
        elim (Bool-cases (has a bs)) [
          | inl t ↦ ground (arith, clear a t, ring_members a)
          | inr f ↦
              Apart-has a used (m.last ∷ free) s.apart
                (still_has a m.last bs c.kept free in' f (λ k. ground (arith, k, members a)))
        ] in
      record {
        ring =
            Linked-++ cell' m.first used (m.last ∷ (bs ++ c.kept))
              (Linked-agree m.cell cell' m.last used (λ a h. ap next_of (stays used s.out_used a h))
                s.before)
              (s.real, out, ap next_of (put_self m.cell m.last _), block')
              (Apart-Clear used _ clear_used);
        front = is.front;
        filled =
            Filled-agree m.cell cell' used xs (λ a h. ap value_of (stays used s.out_used a h))
              is.filled;
      }
