-- ===== src/Concurrent/Shared/Moves.antt =====
-- Each step of a thread on a `mpsc_stack` keeps what holds between the steps.
use icon.Prelude.{
  ℕ, ◌≡◌, refl, subst, ◌≢◌, true, false, Option, some, List, [], ◌∷◌, arith, ==-refl, Bool-cases,
  inl, inr,
}
use icon.Concurrent.Memory.{Ptr, null}
use icon.Concurrent.Memory.Links.{has, first_or}
use icon.Concurrent.Shared.{
  mpsc, Memory, set_next, Place, idle, push_load, push_store, push_swap, pop_load, pop_next,
  pop_swap, pop_clear, all_load, all_swap, holds, System, replay, happens, update, Event, pushed,
  popped, found_empty, took_all, Move, load_push, store_push, swap_push, fail_push, load_empty,
  load_pop, read_next, swap_pop, fail_pop, clear_next, all_empty, load_all, swap_all, fail_all,
  note, after_pop, Step, call_push, call_pop, call_all, move, MayPop, Reach, start, later, init,
}
use icon.Concurrent.Shared.Invariant.{
  Chain, Local, IsConsistent, Chain_frame, Local-frame, Local-push, Local-take, update-all,
  alone_update,
}

module _ (s : System) (xs : List Ptr) (is : IsConsistent s xs) (i : ℕ) (x : Place)
    (at : s.place i ≡ x) where
  here : Local s.memory.next xs i x
  here = subst (λ y. Local s.memory.next xs i y) at (is.at_place i)

  not_others : (p : Ptr) (j : ℕ) → j ≢ i → holds x p ≡ true → holds (s.place j) p ≡ false
  not_others p j ne h = elim (Bool-cases (holds (s.place j) p)) [
    | inl t ↦ absurd (ne (is.alone j i p t (rw at h)))
    | inr f ↦ f
  ]

  -- The thread goes on to a place where it holds no more than before, and the stack is as it was.
  walks :
      (x' : Place)
      → ((p : Ptr) → holds x' p ≡ true → holds x p ≡ true)
      → Local s.memory.next xs i x'
      → IsConsistent (record s { place = update s.place i x' }) xs
  walks x' less local = record {
    replayed = is.replayed;
    top = is.top;
    chain = is.chain;
    at_place =
        update-all (λ j y. Local s.memory.next xs j y) s.place i x' local (λ j ne. is.at_place j);
    alone = alone_update s.place i x' is.alone (λ p j ne h. not_others p j ne (less p h));
  }

  -- It writes to a node outside the stack.
  writes :
      (p q : Ptr) (x' : Place)
      → has p xs ≡ false
      → ((p : Ptr) → holds x' p ≡ true → holds x p ≡ true)
      → Local s.memory.next xs i x'
      → IsConsistent (record s { memory = set_next s.memory p q; place = update s.place i x' }) xs
  unfolding set_next
  writes p q x' out less local = record {
    replayed = is.replayed;
    top = is.top;
    chain = Chain_frame s.memory xs p q is.chain out;
    at_place =
        update-all (λ j y. Local (set_next s.memory p q).next xs j y) s.place i x'
          (Local-frame s.memory xs i x' p q out local)
          (λ j ne. Local-frame s.memory xs j (s.place j) p q out (is.at_place j));
    alone = alone_update s.place i x' is.alone (λ p j ne h. not_others p j ne (less p h));
  }

  -- It puts its node on the stack.
  pushes :
      (p : Ptr)
      → holds x p ≡ true
      → p ≢ null
      → has p xs ≡ false
      → s.memory.first ≡ s.memory.next p
      → IsConsistent
          (record {
            memory = record s.memory { first = p };
            place = update s.place i idle;
            log = pushed p ∷ s.log;
          })
          (p ∷ xs)
  unfolding replay happens holds
  pushes p mine ne out e = record {
    replayed = ground (arith, is.replayed);
    top = refl;
    chain = (ne, out, ground (arith, is.top), is.chain);
    at_place =
        update-all (λ j y. Local s.memory.next (p ∷ xs) j y) s.place i idle tt
          (λ j other.
            Local-push s.memory.next xs j (s.place j) p (not_others p j other mine)
              (is.at_place j));
    alone = alone_update s.place i idle is.alone (λ q j other h. cc);
  }

  -- Thread 0 takes nodes out, so that `ys` is left.
  takes :
      (ys : List Ptr) (first : Ptr) (e : Event) (x' : Place)
      → i ≡ 0
      → replay (e ∷ s.log) ≡ some ys
      → first ≡ first_or null ys
      → Chain s.memory.next ys
      → ((a : Ptr) → has a xs ≡ false → has a ys ≡ false)
      → ((p : Ptr) (j : ℕ) → j ≢ i → holds x' p ≡ true → holds (s.place j) p ≡ false)
      → Local s.memory.next ys i x'
      → IsConsistent
          (record {
            memory = record s.memory { first = first };
            place = update s.place i x';
            log = e ∷ s.log;
          })
          ys
  takes ys first e x' zero_th history top chain less fresh local = record {
    replayed = history;
    top = top;
    chain = chain;
    at_place =
        update-all (λ j y. Local s.memory.next ys j y) s.place i x' local
          (λ j ne.
            Local-take s.memory.next xs ys j (s.place j) (ground arith) less (is.at_place j));
    alone = alone_update s.place i x' is.alone fresh;
  }

-- What a thread holds is not in the stack.
pub held-out :
    (next : Ptr → Ptr) (xs : List Ptr) (i : ℕ) (x : Place) (p : Ptr)
    → Local next xs i x
    → holds x p ≡ true
    → has p xs ≡ false
unfolding holds
held-out next xs i idle p l h = cc
held-out next xs i (push_load a) p l h = ground (arith, l.1)
held-out next xs i (push_store a f) p l h = ground (arith, l.1)
held-out next xs i (push_swap a) p l h = ground (arith, l.1)
held-out next xs i pop_load p l h = cc
held-out next xs i (pop_next v) p l h = cc
held-out next xs i (pop_swap v n) p l h = cc
held-out next xs i (pop_clear v) p l h = ground (arith, l.2)
held-out next xs i all_load p l h = cc
held-out next xs i (all_swap v) p l h = cc

-- The exchange of `pop`, once the stack is known to begin with the node.
pops :
    (s : System) (xs : List Ptr) (is : IsConsistent s xs) (i : ℕ) (v n : Ptr)
    → s.place i ≡ pop_swap v n
    → s.memory.first ≡ v
    → (ys : List Ptr) × IsConsistent
        (record {
          memory = record s.memory { first = n };
          place = update s.place i (pop_clear v);
          log = popped v ∷ s.log;
        })
        ys
unfolding replay happens holds
pops s [] is i v n at e = absurd (cc (here s [] is i (pop_swap v n) at).1)
pops s (y ∷ ys) is i v n at e =
    let (zero_th, inside, there) = here s (y ∷ ys) is i (pop_swap v n) at in
    let same : v ≡ y = ground (arith, is.top) in
    let (ne, out, to', rest) = is.chain in
    (
      ys,
      takes s (y ∷ ys) is i (pop_swap v n) at ys n (popped v) (pop_clear v) zero_th
          (ground (arith, is.replayed)) (ground arith) rest (λ a h. ground arith)
          (λ p j other h. elim (Bool-cases (holds (s.place j) p)) [
            | inl t ↦
                ground (arith, held-out s.memory.next (y ∷ ys) j (s.place j) p (is.at_place j) t)
            | inr f ↦ f
          ])
          (zero_th, rw same ne, rw same out),
    )

empty_list : (next : Ptr → Ptr) (xs : List Ptr) → Chain next xs → first_or null xs ≡ null → xs ≡ []
empty_list next [] chain e = refl
empty_list next (y ∷ ys) chain e = absurd (chain.0 e)

first_inside : (p : Ptr) (xs : List Ptr) → p ≡ first_or null xs → p ≢ null → has p xs ≡ true
first_inside p [] e ne = absurd (ne e)
first_inside p (y ∷ ys) e ne = ground arith

-- `pop` and `pop_all` of an empty stack
finds_empty :
    (s : System) (xs : List Ptr) (is : IsConsistent s xs) (i : ℕ) (x : Place)
    → s.place i ≡ x
    → i ≡ 0
    → s.memory.first ≡ null
    → (ys : List Ptr) × IsConsistent
        (record { memory = s.memory; place = update s.place i idle; log = found_empty ∷ s.log })
        ys
unfolding replay happens holds
finds_empty s [] is i x at zero_th e = (
  [],
  takes s [] is i x at [] s.memory.first found_empty idle zero_th (ground (arith, is.replayed))
      is.top tt (λ a h. h) (λ p j other h. cc) tt,
)
finds_empty s (y ∷ ys) is i x at zero_th e = absurd (is.chain.0 (cc (is.top)))

-- The exchange of `pop_all`
takes_all :
    (s : System) (xs : List Ptr) (is : IsConsistent s xs) (i : ℕ) (v : Ptr)
    → s.place i ≡ all_swap v
    → s.memory.first ≡ v
    → (ys : List Ptr) × IsConsistent
        (record {
          memory = record s.memory { first = null };
          place = update s.place i idle;
          log = took_all v ∷ s.log;
        })
        ys
unfolding replay happens holds
takes_all s xs is i v at e = (
  [],
  takes s xs is i (all_swap v) at [] null (took_all v) idle (here s xs is i (all_swap v) at)
      (ground (arith, is.replayed, is.top)) refl tt (λ a h. refl) (λ p j other h. cc) tt,
)

moves :
    (s : System) (xs : List Ptr) (is : IsConsistent s xs) (i : ℕ) {x x' : Place} {m' : Memory}
    {e : Option Event}
    → s.place i ≡ x
    → Move mpsc s.memory x m' x' e
    → (ys : List Ptr) × IsConsistent
        (record { memory = m'; place = update s.place i x'; log = note e s.log })
        ys
unfolding holds after_pop
moves s xs is i at (load_push p) =
    (xs, walks s xs is i _ at (push_store p s.memory.first) (λ a h. h) (here s xs is i _ at))
moves s xs is i at (store_push p f) =
    let local = here s xs is i _ at in
    (xs, writes s xs is i _ at p f (push_swap p) local.1 (λ a h. h) local)
moves s xs is i at (swap_push p e) =
    let local = here s xs is i _ at in
    (p ∷ xs, pushes s xs is i _ at p (==-refl p) local.0 local.1 e)
moves s xs is i at (fail_push p) =
    let local = here s xs is i _ at in
    (xs, writes s xs is i _ at p s.memory.first (push_load p) local.1 (λ a h. h) local)
moves s xs is i at (load_empty e) = finds_empty s xs is i _ at (here s xs is i _ at) e
moves s xs is i at (load_pop ne) = (
  xs,
  walks s xs is i _ at (pop_next s.memory.first) (λ a h. cc)
      (here s xs is i _ at, first_inside s.memory.first xs is.top ne),
)
moves s xs is i at (read_next v) =
    let local = here s xs is i _ at in
    (xs, walks s xs is i _ at (pop_swap v (s.memory.next v)) (λ a h. cc) (local.0, local.1, refl))
moves s xs is i at (swap_pop v n e) = pops s xs is i v n at e
moves s xs is i at (fail_pop v n ne) =
    (xs, walks s xs is i _ at pop_load (λ a h. cc) (here s xs is i _ at).0)
moves s xs is i at (clear_next v) =
    let local = here s xs is i _ at in
    (xs, writes s xs is i _ at v null idle local.2 (λ a h. cc) tt)
moves s xs is i at (all_empty e) = finds_empty s xs is i _ at (here s xs is i _ at) e
moves s xs is i at (load_all ne) =
    (xs, walks s xs is i _ at (all_swap s.memory.first) (λ a h. cc) (here s xs is i _ at))
moves s xs is i at (swap_all v e) = takes_all s xs is i v at e
moves s xs is i at (fail_all v ne) =
    (xs, walks s xs is i _ at all_load (λ a h. cc) (here s xs is i _ at))

-- A call begins
calls :
    (s : System) (xs : List Ptr) (is : IsConsistent s xs) {t : System}
    → Step mpsc s t
    → (ys : List Ptr) × IsConsistent t ys
unfolding holds MayPop
calls s xs is (call_push i p at ne out free) = (
  xs,
  record {
    replayed = is.replayed;
    top = is.top;
    chain = is.chain;
    at_place =
        update-all (λ j y. Local s.memory.next xs j y) s.place i (push_load p)
          (ne, ground (arith, is.replayed)) (λ j other. is.at_place j);
    alone = alone_update s.place i (push_load p) is.alone (λ q j other h. ground (arith, free j));
  },
)
calls s xs is (call_pop i at may) = (xs, walks s xs is i idle at pop_load (λ a h. cc) may)
calls s xs is (call_all i at may) = (xs, walks s xs is i idle at all_load (λ a h. cc) may)
calls s xs is (move i at mv) = moves s xs is i at mv

pub Reach-IsConsistent :
    {next : Ptr → Ptr} {s : System} → Reach mpsc next s → (xs : List Ptr) × IsConsistent s xs
unfolding init replay holds
Reach-IsConsistent start = (
  [],
  record { replayed = refl; top = refl; chain = tt; at_place = λ i. tt; alone = λ i j p h g. cc },
)
Reach-IsConsistent (later {s} r st) = let (xs, is) = Reach-IsConsistent r in calls s xs is st
