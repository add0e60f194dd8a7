-- ===== src/Concurrent/Ring/Fifo.antt =====
-- `spmc_queue` of src/Concurrent.hpp against a list to which `push` appends and from which `pop` takes the
-- first.
use icon.Prelude.{
  ℕ, zero, suc, ◌+◌, ◌-◌, ◌%◌, ◌^◌, ◌≤◌, ◌<◌, ◌≡◌, refl, ap, ◌∙◌, sym, ◌≢◌, Option, none, some,
  List, [], ◌∷◌, ◌++◌, length, arith, subst,
}
use native.Mathlib.Nat.{mod-eq_of_lt, mod_self}
use icon.NumberBuffer.{u64}
use icon.Concurrent.Memory.{Ptr, null, Heap, Program, pure, ◌>>=◌, Ensures}
use icon.Concurrent.Memory.Links.{first_or, Ensures-mono, Ensures-bind}
use icon.Concurrent.Memory.Calls.{with_reply}
use icon.Concurrent.Ring.{Queue, create_new_empty_cycle, init_empty, push, pop}
use icon.Concurrent.Ring.Chains.{addresses, length-addresses, Linked-addresses}
use icon.Concurrent.Ring.Blocks.{Made, create_new_empty_cycle-Made}
use icon.Concurrent.Ring.Holds.{HoldsAt, Supplied, Supplied-Beside}
use icon.Concurrent.Ring.Steps.{push-Holds, taken, pop-empty, pop-first}

-- Calls of `push` and `pop`
pub data Call (V : Type 0) : Type 0 where
  give : V → Call V
  take : Call V

-- The calls, with what each `pop` gives.
unfoldable pub run : {V : Type 0} → V → List (Call V) → Queue → Program V (Queue × List (Option V))
run v [] q = pure (q, [])
run v (give x ∷ calls) q = do q' ← push v q x; run v calls q'
run v (take ∷ calls) q = do (x, q') ← pop 1 q; (last, out) ← run v calls q'; pure (last, x ∷ out)

-- The same calls on a list
unfoldable pub spec : {V : Type 0} → List (Call V) → List V → List V × List (Option V)
spec [] xs = (xs, [])
spec (give x ∷ calls) xs = spec calls (xs ++ (x ∷ []))
spec (take ∷ calls) [] = let (last, out) = spec calls [] in (last, none ∷ out)
spec (take ∷ calls) (x ∷ xs) = let (last, out) = spec calls xs in (last, some x ∷ out)

abbrev pub gifts : {V : Type 0} → List (Call V) → ℕ
gifts [] = 0
gifts (give x ∷ calls) = suc (gifts calls)
gifts (take ∷ calls) = gifts calls

-- The ring holds the values `xs`, the next to go first.
abbrev pub Holds : {V : Type 0} → Heap V → Queue → List V → Type 0
Holds h q xs = (used : List Ptr) × (free : List Ptr) × HoldsAt h q used free xs

module _ {V : Type 0} where
  refines :
      (v : V) (calls : List (Call V)) (h : Heap V) (q : Queue) (used free : List Ptr) (xs : List V)
      → HoldsAt h q used free xs
      → 0 < q.batch
      → q.batch < 2 ^ 64
      → gifts calls ≤ length h.supply
      → Supplied h.cell q.batch h.supply
      → Ensures
          (λ r h'. Holds h' r.0 (spec calls xs).0 × (r.1 ≡ (spec calls xs).1))
          (run v calls q h)
  unfolding run spec
  refines v [] h q used free xs is lo hi enough supply = ((used, free, is), refl)
  refines v (give x ∷ calls) h q used free xs is lo hi enough supply =
      Ensures-bind _ (push v q x h) _
        (push-Holds v h q used free xs x is lo hi (omega arith) supply)
        (λ q' h' p.
          refines v calls h' q' p.now p.free (xs ++ (x ∷ [])) p.holds (omega (arith, p.same_batch))
            (omega (arith, p.same_batch)) (omega (arith, p.few))
            (subst (λ n. Supplied h'.cell n h'.supply) (sym p.same_batch) p.supplied))
  refines v (take ∷ calls) h q [] free [] is lo hi enough supply =
      rw (pop-empty zero h q is.front) (
        with_reply none _ (run v calls q h) (
          Ensures-mono (run v calls q h) (refines v calls h q [] free [] is lo hi enough supply)
            (λ r h' (holds, out). (holds, ap (λ z. none ∷ z) out))))
  refines v (take ∷ calls) h q (p ∷ ps) free (x ∷ xs) is lo hi enough supply =
      let q' : Queue = record q { first = first_or q.last ps } in
      rw (pop-first zero h q p ps free x xs is) (
        with_reply (some x) _ (run v calls q' h) (
          Ensures-mono (run v calls q' h)
            (refines v calls h q' ps (free ++ (p ∷ [])) xs (taken h q p ps free x xs is) lo hi
              enough supply)
            (λ r h' (holds, out). (holds, ap (λ z. some x ∷ z) out))))
  refines v (take ∷ calls) h q (p ∷ ps) free [] is lo hi enough supply = absurd is.filled
  refines v (take ∷ calls) h q [] free (x ∷ xs) is lo hi enough supply = absurd is.filled

  made-HoldsAt :
      (h h₁ : Heap V) (b : Ptr) (n : ℕ) (bs : List Ptr) (q : Queue)
      → 0 < n
      → b ≢ null
      → q.allocated ≡ u64 n
      → Made h h₁ b n bs
      → HoldsAt h₁ (record q { first = b; last = b }) [] (addresses (b + 1) (n - 1)) []
  made-HoldsAt h h₁ b n bs q some_nodes ne all m = record {
    ring =
        Linked-addresses h₁.cell b b (n - 1) ne
          (λ a lo hi.
            m.cycle a lo (omega arith)
            ∙ ap some (ap (λ j. b + j) (mod-eq_of_lt (omega arith)) ∙ omega arith))
          (m.cycle (b + (n - 1)) (omega arith) (omega arith)
            ∙ ap some
                (ap (λ j. b + j % n) (omega arith) ∙ (ap (λ j. b + j) (mod_self n) ∙ omega arith)));
    front = refl;
    filled = tt;
    counted = omega (arith, all, length-addresses (b + 1) (n - 1));
  }

  init_empty-Holds :
      (v : V) (n : ℕ) (h : Heap V) (b : Ptr) (bs : List Ptr)
      → 0 < n
      → h.supply ≡ b ∷ bs
      → Supplied h.cell n (b ∷ bs)
      → Ensures
          (λ q h'.
            HoldsAt h' q [] (addresses (b + 1) (n - 1)) []
            × (q.batch ≡ n)
            × (h'.supply ≡ bs)
            × Supplied h'.cell n bs)
          (init_empty v n h)
  unfolding init_empty
  init_empty-Holds v n h b bs lo e (ne, fresh, beside, rest) =
      let q : Queue = record { first = 0; last = 0; blocks = []; batch = n; allocated = 0 } in
      Ensures-bind _ (create_new_empty_cycle v q h) _ (create_new_empty_cycle-Made v q h b bs e)
        (λ r h₁ (made, m). rw made (
          made-HoldsAt h h₁ b n bs (record q { blocks = (b, n) ∷ []; allocated = u64 (0 + n) }) lo
              ne (omega arith) m,
          refl,
          m.supplied,
          Supplied-Beside h.cell h₁.cell b n bs (λ a out fr. m.others a out ∙ fr) beside rest,
        ))

  -- A queue that is constructed with an allocation batch of 1 to 2^64 - 1, where memory is there for its
  -- first block and one for each `push`: any calls of `push` and `pop` end, each `pop` gives what it gives
  -- on a list to which `push` appends and from which `pop` takes the first, nothing where that is empty,
  -- and the ring holds what is left of that list.
  pub run-fifo :
      (v : V) (calls : List (Call V)) (allocation_batch : ℕ) (h : Heap V)
      → 0 < allocation_batch
      → allocation_batch < 2 ^ 64
      → gifts calls < length h.supply
      → Supplied h.cell allocation_batch h.supply
      → Ensures
          (λ r h'. Holds h' r.0 (spec calls []).0 × (r.1 ≡ (spec calls []).1))
          ((init_empty v allocation_batch >>= run v calls) h)
  run-fifo v calls n h lo hi enough supply = with_supply h.supply refl
    where
      with_supply :
          (bs : List Ptr)
          → h.supply ≡ bs
          → Ensures
              (λ r h'. Holds h' r.0 (spec calls []).0 × (r.1 ≡ (spec calls []).1))
              ((init_empty v n >>= run v calls) h)
      with_supply [] e = absurd (omega (arith, ap length e, enough))
      with_supply (b ∷ bs) e =
          let some_blocks = subst (λ z. Supplied h.cell n z) e supply in
          Ensures-bind _ (init_empty v n h) (run v calls)
            (init_empty-Holds v n h b bs lo e some_blocks)
            (λ q h' (is, batch, left, rest).
              refines v calls h' q [] (addresses (b + 1) (n - 1)) [] is (omega (arith, batch, lo))
                (omega (arith, batch, hi)) (omega (arith, enough, ap length e, ap length left))
                (subst (λ m. Supplied h'.cell m h'.supply) (sym batch)
                  (subst (λ z. Supplied h'.cell n z) (sym left) rest)))
