-- ===== src/Concurrent/Ring/Growth.antt =====
-- A block that `push` of `spmc_queue` puts into the ring, in src/Concurrent.hpp.
use icon.Prelude.{
  ℕ, suc, ◌+◌, ◌-◌, ◌^◌, ◌≤◌, ◌<◌, ◌≡◌, refl, ap, ◌∙◌, sym, ◌≢◌, Bool, true, false, Option, none,
  some, List, [], ◌∷◌, ◌++◌, ◌==◌, arith, Bool-cases, inl, inr, ne→==, ==-refl,
}
use native.Mathlib.Nat.{mod-eq_of_lt}
use icon.NumberBuffer.{u64}
use icon.Concurrent.Memory.{
  Program, Ptr, null, Node, Heap, put, returns, pure, continue, ◌>>=◌, ◌>>◌, Ensures, set_next,
}
use icon.Concurrent.Memory.Links.{
  has, next_of, Linked, Apart-cons, node_at, get_next-runs, set_next-runs, put_self, put_ne,
  Ensures-bind,
}
use icon.Concurrent.Ring.{Queue, create_new_empty_cycle, grow}
use icon.Concurrent.Ring.Chains.{
  addresses, has-addresses, Linked-agree, Linked-++, Linked-split, Linked-node, Linked-Apart,
  Linked-addresses, Apart-has,
}
use icon.Concurrent.Ring.Blocks.{within, Made, create_new_empty_cycle-Made}

abbrev pub value_of : {V : Type 0} → Option (Node V) → Option V
value_of none = none
value_of (some n) = some n.value

-- A block of `size` new nodes at `b` is put in between `last` and `first`.
pub record Joined {V : Type 0} (cell cell' : Ptr → Option (Node V)) (first last b size : ℕ)
    : Type 0 where
  pub others : (a : Ptr) → within b size a ≡ false → a ≢ last → cell' a ≡ cell a
  pub to_block : next_of (cell' last) ≡ some b
  pub block : (a : Ptr) → b ≤ a → a + 1 < b + size → next_of (cell' a) ≡ some (a + 1)
  pub to_first : next_of (cell' (b + (size - 1))) ≡ some first

last_of : (b size : ℕ) → 0 < size → size < 2 ^ 64 → b + u64 (size + 2 ^ 64 - 1) ≡ b + (size - 1)
last_of b size lo hi = omega arith

module _ {V : Type 0} where
  -- The nodes that hold values stay as they are.
  pub Joined-used :
      (cell cell' : Ptr → Option (Node V)) (first last b size : ℕ) (used : List Ptr)
      → Joined cell cell' first last b size
      → ((a : Ptr) → within b size a ≡ true → cell a ≡ none)
      → Linked cell first (used ++ (last ∷ []))
      → (a : Ptr) → has a used ≡ true
      → cell' a ≡ cell a
  Joined-used cell cell' first last b size used j fresh ring a in' =
      let (front, back, apart) = Linked-split cell first used (last ∷ []) ring in
      let out : within b size a ≡ false = elim (Bool-cases (within b size a)) [
        | inl t ↦ absurd (Linked-node cell last used a front in' (ap next_of (fresh a t)))
        | inr f ↦ f
      ] in
      let last_out : has last used ≡ false = Apart-has last used (last ∷ []) apart (ground arith) in
      j.others a out (λ e. ground (arith, e, in', last_out))

  -- The ring with the block in it
  pub Joined-Linked :
      (cell cell' : Ptr → Option (Node V)) (first last b size : ℕ) (used : List Ptr)
      → Joined cell cell' first last b size
      → 0 < size
      → b ≢ null
      → ((a : Ptr) → within b size a ≡ true → cell a ≡ none)
      → Linked cell first (used ++ (last ∷ []))
      → Linked cell' first (used ++ (last ∷ addresses b (suc (size - 1))))
  Joined-Linked cell cell' first last b size used j some_size ne fresh ring =
      let bs = addresses b (suc (size - 1)) in
      let inside : (a : Ptr) → has a bs ≡ true → cell a ≡ none =
        λ a in'. fresh a (ground (arith, has-addresses a b (suc (size - 1)))) in
      let (front, back, apart) = Linked-split cell first used (last ∷ []) ring in
      let last_out : has last bs ≡ false = (Linked-Apart cell first (last ∷ []) bs back inside).0 in
      let block : Linked cell' first bs =
        Linked-addresses cell' first b (size - 1) ne (λ a lo hi. j.block a lo (omega arith))
          j.to_first in
      let last_new : has last used ≡ false = Apart-has last used (last ∷ []) apart (ground arith) in
      let kept : (a : Ptr) → has a used ≡ true → next_of (cell' a) ≡ next_of (cell a) =
        λ a in'. ap next_of (Joined-used cell cell' first last b size used j fresh ring a in') in
      Linked-++ cell' first used (last ∷ bs) (Linked-agree cell cell' last used kept front)
        (back.0, last_out, j.to_block, block)
        (Apart-cons last used bs last_new (Linked-Apart cell last used bs front inside))

  -- The two writes that put a new block into the ring
  abbrev link_in : Queue → Queue → Ptr → Program V Queue
  link_in q q' b = do set_next (b + u64 (q.batch + 2 ^ 64 - 1)) q.first; set_next q.last b; pure q'

  link_in-Joined :
      (q q' : Queue) (h h₁ : Heap V) (b : Ptr) (bs : List Ptr) (n : Node V)
      → 0 < q.batch
      → q.batch < 2 ^ 64
      → h.cell q.last ≡ some n
      → ((a : Ptr) → within b q.batch a ≡ true → h.cell a ≡ none)
      → Made h h₁ b q.batch bs
      → Ensures
          (λ r h'. (r ≡ q') × (h'.supply ≡ bs) × Joined h.cell h'.cell q.first q.last b q.batch)
          (link_in q q' b h₁)
  link_in-Joined q q' h h₁ b bs n lo hi there fresh m =
      let x : ℕ = b + (q.batch - 1) in
      let (nx, there₁, to₁) = node_at (h₁.cell x) _ (m.cycle x (omega arith) (omega arith)) in
      let out : within b q.batch q.last ≡ false = elim (Bool-cases (within b q.batch q.last)) [
        | inl t ↦ cc (fresh q.last t)
        | inr f ↦ f
      ] in
      let away : q.last ≢ x = λ e. ground arith in
      let h₂ : Heap V = record h₁ { cell = put h₁.cell x (some (record nx { next = q.first })) } in
      let there₂ : h₂.cell q.last ≡ some n =
        put_ne h₁.cell x q.last _ away ∙ (m.others q.last out ∙ there) in
      rw
        (
          last_of b q.batch lo hi,
          set_next-runs h₁ x q.first nx there₁,
          set_next-runs h₂ q.last b n there₂,
        )
        (
          refl,
          m.supplied,
          record {
            others = λ a o ne.
                put_ne h₂.cell q.last a _ ne
                ∙ (put_ne h₁.cell x a _ (λ e. ground arith) ∙ m.others a o);
            to_block = ap next_of (put_self h₂.cell q.last _);
            block = λ a lo' hi'.
                ap next_of (
                  put_ne h₂.cell q.last a _ (λ e. ground arith)
                  ∙ put_ne h₁.cell x a _ (λ e. omega arith))
                ∙ (m.cycle a lo' (omega arith)
                    ∙ ap some (ap (λ j. b + j) (mod-eq_of_lt (omega arith)) ∙ omega arith));
            to_first =
                ap next_of (put_ne h₂.cell q.last x _ (λ e. away (sym e)) ∙ put_self h₁.cell x _);
          },
        )

  grow-tail :
      (v : V) (q : Queue) (h : Heap V) (full : Bool)
      → (elim full as (λ _. Program V Queue) [
        | false ↦ pure q
        | true ↦ create_new_empty_cycle v q >>= (λ r. link_in q r.1 r.0)
      ])
          h
        ≡ elim full [
          | false ↦ returns q h
          | true ↦ continue (create_new_empty_cycle v q h) (λ r. link_in q r.1 r.0)
        ]
  grow-tail v q h false = refl
  grow-tail v q h true = refl

  grow-at :
      (v : V) (q : Queue) (h : Heap V) (x : Ptr)
      → next_of (h.cell q.last) ≡ some x
      → grow v q h ≡ elim (x == q.first) [
        | false ↦ returns q h
        | true ↦ continue (create_new_empty_cycle v q h) (λ r. link_in q r.1 r.0)
      ]
  unfolding grow
  grow-at v q h x e = rw (get_next-runs h q.last x e) (grow-tail v q h (x == q.first))

  -- `push` of a full ring puts a block in.
  pub grow-Joined :
      (v : V) (q : Queue) (h : Heap V) (b : Ptr) (bs : List Ptr) (n : Node V)
      → 0 < q.batch
      → q.batch < 2 ^ 64
      → h.cell q.last ≡ some n
      → n.next ≡ q.first
      → h.supply ≡ b ∷ bs
      → ((a : Ptr) → within b q.batch a ≡ true → h.cell a ≡ none)
      → Ensures
          (λ q' h'.
            (q' ≡ record q { allocated = u64 (q.allocated + q.batch) })
            × (h'.supply ≡ bs)
            × Joined h.cell h'.cell q.first q.last b q.batch)
          (grow v q h)
  grow-Joined v q h b bs n lo hi there full e fresh =
      rw (grow-at v q h q.first (ground (arith, there)), ==-refl q.first)
        (Ensures-bind _ (create_new_empty_cycle v q h) _ (create_new_empty_cycle-Made v q h b bs e)
          (λ r h₁ (made, m). rw made (link_in-Joined q _ h h₁ b bs n lo hi there fresh m)))

  -- Else it leaves all as it is.
  pub grow-same :
      (v : V) (q : Queue) (h : Heap V) (n : Node V)
      → h.cell q.last ≡ some n
      → n.next ≢ q.first
      → grow v q h ≡ returns q h
  grow-same v q h n there more =
      rw (grow-at v q h n.next (ground (arith, there)), ne→== n.next q.first more) refl
