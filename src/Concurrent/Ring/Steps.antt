-- ===== src/Concurrent/Ring/Steps.antt =====
-- `push` and `pop` of `spmc_queue` in src/Concurrent.hpp, on a ring that holds a list of values.
use icon.Prelude.{
  ℕ, suc, ◌+◌, ◌^◌, ◌≤◌, ◌<◌, ◌≡◌, refl, ap, ◌∙◌, sym, ◌≢◌, false, Option, none, some, List, [],
  ◌∷◌, ◌++◌, append_assoc, length, length-append, arith, ne→==, ==-refl, subst,
}
use icon.Concurrent.Memory.{Ptr, Node, Heap, put, returns, Ensures}
use icon.Concurrent.Memory.Links.{
  has, first_or, next_of, Linked, get_next-runs, put_self, put_ne, Ensures-bind,
}
use icon.Concurrent.Ring.{Queue, read_value, write_value, grow, push, pop}
use icon.Concurrent.Ring.Chains.{
  has-++, first_or-++, Linked-agree, Linked-split, Linked-rotate, Apart-has,
}
use icon.Concurrent.Ring.Growth.{value_of}
use icon.Concurrent.Ring.Holds.{
  HoldsAt, Filled-agree, Filled-snoc, Supplied, Supplied-keeps, grow-Grown, last_node,
}

-- After `push` of `x`
pub record Pushed {V : Type 0} (q : Queue) (bs : List Ptr) (xs : List V) (x : V) (q' : Queue)
    (h' : Heap V) : Type 0 where
  pub now : List Ptr
  pub free : List Ptr
  pub holds : HoldsAt h' q' now free (xs ++ (x ∷ []))
  pub supplied : Supplied h'.cell q.batch h'.supply
  pub few : length bs ≤ length h'.supply + 1
  pub same_batch : q'.batch ≡ q.batch

module _ {V : Type 0} where
  write_value-runs :
      (h : Heap V) (p : Ptr) (x : V) (n : Node V)
      → h.cell p ≡ some n
      → write_value p x h
        ≡ returns tt (record h { cell = put h.cell p (some (record n { value = x })) })
  unfolding write_value
  write_value-runs h p x n e = ground arith

  read_value-runs :
      (h : Heap V) (p : Ptr) (x : V) → value_of (h.cell p) ≡ some x → read_value p h ≡ returns x h
  unfolding read_value
  read_value-runs h p x e = ground arith

  -- A value in a node changes no pointer.
  pub put_value-next :
      (cell : Ptr → Option (Node V)) (p : Ptr) (x : V) (n : Node V)
      → cell p ≡ some n
      → (a : Ptr) → next_of (put cell p (some (record n { value = x })) a) ≡ next_of (cell a)
  unfolding put
  put_value-next cell p x n e a = ground arith

  -- What `push` leaves once it has a free node, where `n` was the last one
  appended :
      (h : Heap V) (q : Queue) (used free : List Ptr) (f : Ptr) (xs : List V) (x : V) (n : Node V)
      → HoldsAt h q used (f ∷ free) xs
      → h.cell q.last ≡ some n
      → HoldsAt
          (record h { cell = put h.cell q.last (some (record n { value = x })) })
          (record q { last = f })
          (used ++ (q.last ∷ []))
          free
          (xs ++ (x ∷ []))
  appended h q used free f xs x n is there =
      let m : Node V = record n { value = x } in
      let cell' = put h.cell q.last (some m) in
      let (front, back, apart) = Linked-split h.cell q.first used (q.last ∷ (f ∷ free)) is.ring in
      let last_out : has q.last used ≡ false =
        Apart-has q.last used (q.last ∷ (f ∷ free)) apart (ground arith) in
      let same : used ++ (q.last ∷ []) ++ (f ∷ free) ≡ used ++ (q.last ∷ (f ∷ free)) =
        append_assoc used (q.last ∷ []) (f ∷ free) in
      record {
        ring = rw same (
            Linked-agree h.cell cell' q.first (used ++ (q.last ∷ (f ∷ free)))
              (λ a in'. put_value-next h.cell q.last x n there a) is.ring);
        front = is.front ∙ sym (first_or-++ f used (q.last ∷ []));
        filled =
            Filled-snoc cell' used xs q.last x
              (Filled-agree h.cell cell' used xs
                (λ a in'.
                  ap value_of
                    (put_ne h.cell q.last a (some m) (λ e. ground (arith, e, in', last_out))))
                is.filled)
              (ap value_of (put_self h.cell q.last (some m)));
        counted = rw same is.counted;
      }

  pub push-Holds :
      (v : V) (h : Heap V) (q : Queue) (used free : List Ptr) (xs : List V) (x : V)
      → HoldsAt h q used free xs
      → 0 < q.batch
      → q.batch < 2 ^ 64
      → 0 < length h.supply
      → Supplied h.cell q.batch h.supply
      → Ensures (Pushed q h.supply xs x) (push v q x h)
  unfolding push
  push-Holds v h q used free xs x is lo hi enough supply =
      Ensures-bind (Pushed q h.supply xs x) (grow v q h) _
        (grow-Grown v h q used free xs is lo hi enough supply)
        (λ q' h' g.
          let (n, there, e) = last_node h' q' used (g.spare ∷ g.others) xs g.holds in
          let m : Node V = record n { value = x } in
          let cell' = put h'.cell q'.last (some m) in
          let reads : next_of (cell' q'.last) ≡ some g.spare =
            ap next_of (put_self h'.cell q'.last (some m)) ∙ ap some e in
          rw⁻¹ g.same_last (
            rw
              (
                write_value-runs h' q'.last x n there,
                get_next-runs (record h' { cell = cell' }) q'.last g.spare reads,
              )
              (record {
                now = used ++ (q'.last ∷ []);
                free = g.others;
                holds = appended h' q' used g.others g.spare xs x n g.holds there;
                supplied =
                    Supplied-keeps h'.cell cell' q.batch h'.supply
                      (λ a fr.
                        put_ne h'.cell q'.last a (some m) (λ z. ground (arith, z, fr, there)) ∙ fr)
                      g.supplied;
                few = g.few;
                same_batch = g.same_batch;
              })))

  rotated :
      (cell : Ptr → Option (Node V)) (p last : Ptr) (ps free : List Ptr)
      → Linked cell p (p ∷ (ps ++ (last ∷ free)))
      → Linked cell (first_or last ps) (ps ++ (last ∷ (free ++ (p ∷ []))))
  rotated cell p last [] free h = Linked-rotate cell p last free h
  rotated cell p last (z ∷ ps) free h =
      subst (λ l. Linked cell z l) (append_assoc (z ∷ ps) (last ∷ free) (p ∷ []))
        (Linked-rotate cell p z (ps ++ (last ∷ free)) h)

  -- `pop` of an empty ring
  pub pop-empty :
      (k : ℕ) (h : Heap V) (q : Queue) → q.first ≡ q.last → pop (suc k) q h ≡ returns (none, q) h
  unfolding pop
  pop-empty k h q e = ground (arith, e)

  pop-runs :
      (k : ℕ) (h : Heap V) (q : Queue) (x : V) (s : Ptr)
      → q.first ≢ q.last
      → value_of (h.cell q.first) ≡ some x
      → next_of (h.cell q.first) ≡ some s
      → pop (suc k) q h ≡ returns (some x, record q { first = s }) h
  unfolding pop
  pop-runs k h q x s ne value next =
      rw
        (
          ne→== q.first q.last ne,
          read_value-runs h q.first x value,
          get_next-runs h q.first s next,
          ==-refl q.first,
        )
        refl

  -- What `pop` leaves of a ring of `p` and more nodes with values
  pub taken :
      (h : Heap V) (q : Queue) (p : Ptr) (ps free : List Ptr) (x : V) (xs : List V)
      → HoldsAt h q (p ∷ ps) free (x ∷ xs)
      → HoldsAt h (record q { first = first_or q.last ps }) ps (free ++ (p ∷ [])) xs
  taken h q p ps free x xs is =
      let ring = subst (λ f. Linked h.cell f (p ∷ (ps ++ (q.last ∷ free)))) is.front is.ring in
      record {
        ring = rotated h.cell p q.last ps free ring;
        front = refl;
        filled = is.filled.1;
        counted = omega (
          arith,
          is.counted,
          length-append ps (q.last ∷ free),
          length-append ps (q.last ∷ (free ++ (p ∷ []))),
          length-append free (p ∷ []),
        );
      }

  ends_ne :
      (h : Heap V) (q : Queue) (p : Ptr) (ps free : List Ptr) (xs : List V)
      → HoldsAt h q (p ∷ ps) free xs
      → q.first ≢ q.last
  ends_ne h q p ps free xs is e =
      ground (arith, is.ring.1, is.front, has-++ p ps (q.last ∷ free), e)

  -- `pop` of a ring that is not empty
  pub pop-first :
      (k : ℕ) (h : Heap V) (q : Queue) (p : Ptr) (ps free : List Ptr) (x : V) (xs : List V)
      → HoldsAt h q (p ∷ ps) free (x ∷ xs)
      → pop (suc k) q h ≡ returns (some x, record q { first = first_or q.last ps }) h
  pop-first k h q p ps free x xs is =
      pop-runs k h q x (first_or q.last ps) (ends_ne h q p ps free (x ∷ xs) is)
        (ap (λ a. value_of (h.cell a)) is.front ∙ is.filled.0)
        (ap (λ a. next_of (h.cell a)) is.front
          ∙ (is.ring.2 ∙ ap some (first_or-++ q.first ps (q.last ∷ free))))
