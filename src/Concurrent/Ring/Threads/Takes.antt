-- ===== src/Concurrent/Ring/Threads/Takes.antt =====
-- Each step of the one thread that pops keeps the ring of `spmc_queue` in src/Concurrent.hpp in shape, and so
-- does every run of the threads.
use icon.Prelude.{
  ℕ, zero, suc, ◌+◌, ◌-◌, ◌<◌, ◌≡◌, refl, ap, ◌∙◌, sym, ◌≢◌, Option, none, some, List, [], ◌∷◌,
  ◌++◌, arith, subst,
}
use icon.Concurrent.Memory.{Ptr, null}
use icon.Concurrent.Memory.Links.{first_or, next_of}
use icon.Concurrent.Ring.Chains.{addresses, has-++, first_or-++}
use icon.Concurrent.Ring.Growth.{value_of}
use icon.Concurrent.Ring.Threads.{
  Memory, Taker, outside, looking, comparing, reading, following, swapping, Event, found_empty,
  Take, load_first, is_empty, has_more, read, follow, swap, fail, After, System, update, note,
  MayPop, one_pops, Step, call_push, call_pop, gives, takes, init, Reach, start, later,
}
use icon.Concurrent.Ring.Threads.Shape.{AtGiver, AtTaker, IsRing, IsConsistent}
use icon.Concurrent.Ring.Threads.Growing.{cycle-Linked}
use icon.Concurrent.Ring.Threads.Moves.{Consistent, gives_kept, taken, AtGiver-taken}

module _ {V : Type 0} where
  update_self : (f : ℕ → Taker V) (i : ℕ) (t : Taker V) → update f i t i ≡ t
  unfolding update
  update_self f i t = ground arith

  update_others :
      (f : ℕ → Taker V) (t : Taker V)
      → ((i : ℕ) → i ≢ 0 → f i ≡ outside)
      → (i : ℕ) → i ≢ 0
      → update f 0 t i ≡ outside
  unfolding update
  update_others f t alone i ne = ground (arith, alone i ne)

  -- A thread outside of `pop` makes no step of it.
  Take-busy :
      {m m' : Memory V} {t t' : Taker V} {e : Option (Event V)} → Take m t m' t' e → t ≢ outside
  Take-busy load_first = λ z. cc
  Take-busy (is_empty f e) = λ z. cc
  Take-busy (has_more f ne) = λ z. cc
  Take-busy (read f x e) = λ z. cc
  Take-busy (follow f x n e) = λ z. cc
  Take-busy (swap f x n e) = λ z. cc
  Take-busy (fail f x n ne) = λ z. cc

  -- The first node is the last one where no node has a value, and not otherwise.
  none_used :
      (m : Memory V) (used free : List Ptr) (xs : List V)
      → IsRing m used free xs
      → m.first ≡ m.last
      → xs ≡ []
  none_used m [] free [] is e = refl
  none_used m [] free (x ∷ xs) is e = absurd (is.filled)
  none_used m (p ∷ ps) free xs is e =
      ground (arith, is.ring.1, is.front, has-++ p ps (m.last ∷ free), e)

  some_used :
      (m : Memory V) (used free : List Ptr) (xs : List V)
      → IsRing m used free xs
      → m.first ≢ m.last
      → used ≢ []
  some_used m [] free xs is ne = absurd (ne is.front)
  some_used m (p ∷ ps) free xs is ne = λ z. cc

  module _ (size : ℕ) (s : System V) where
    -- The thread goes on, and the ring is as it was.
    walked :
        (used free : List Ptr) (xs : List V) (t : Taker V) (e : Option (Event V))
        → IsConsistent size s used free xs
        → After (note e s.log) xs
        → AtTaker s.memory used t
        → Consistent size (record s { taker = update s.taker 0 t; log = note e s.log })
    walked used free xs t e is history at = (
      used,
      free,
      xs,
      record {
        history = history;
        shape = is.shape;
        at_giver = is.at_giver;
        at_taker = subst (λ u. AtTaker s.memory used u) (sym (update_self s.taker 0 t)) at;
        alone = update_others s.taker t is.alone;
      },
    )

    takes_kept :
        (used free : List Ptr) (xs : List V) {t t' : Taker V} {m' : Memory V} {e : Option (Event V)}
        → IsConsistent size s used free xs
        → AtTaker s.memory used t
        → Take s.memory t m' t' e
        → Consistent size
            (record s { memory = m'; taker = update s.taker 0 t'; log = note e s.log })
    takes_kept used free xs is at load_first =
        walked used free xs (comparing s.memory.first) none is is.history refl
    takes_kept used free xs is at (is_empty f e) =
        let empty : xs ≡ [] = none_used s.memory used free xs is.shape (sym at ∙ e) in
        walked used free xs outside (some found_empty) is
          (subst (λ l. After s.log l) empty is.history, empty) tt
    takes_kept used free xs is at (has_more f ne) =
        walked used free xs (reading f) none is is.history
          (at, some_used s.memory used free xs is.shape (λ z. ne (at ∙ z)))
    takes_kept used free xs is at (read f x e) =
        walked used free xs (following f x) none is is.history (at.0, at.1, e)
    takes_kept used free xs is at (follow f x n e) =
        walked used free xs (swapping f x n) none is is.history (at.0, at.1, at.2, e)
    takes_kept [] free xs is at (swap f x n e) = absurd (at.1 refl)
    takes_kept (p ∷ ps) free [] is at (swap f x n e) = absurd (is.shape.filled)
    takes_kept (p ∷ ps) free (y ∷ xs) is at (swap f x n e) =
        let front : f ≡ p = at.0 ∙ is.shape.front in
        let value : some x ≡ some y =
          sym at.2 ∙ (ap (λ a. value_of (s.memory.cell a)) front ∙ is.shape.filled.0) in
        let same : x ≡ y = ground (arith, value) in
        let link : some n ≡ some (first_or s.memory.last ps) =
          sym at.3
          ∙ (ap (λ a. next_of (s.memory.cell a)) front
              ∙ (is.shape.ring.2
                  ∙ ap some (first_or-++ s.memory.first ps (s.memory.last ∷ free)))) in
        let next : n ≡ first_or s.memory.last ps = ground (arith, link) in
        rw same (
          rw next (
            ps,
            free ++ (p ∷ []),
            xs,
            record {
              history = is.history;
              shape = taken s.memory p ps free y xs is.shape;
              at_giver = AtGiver-taken size s.memory p ps free s.giver is.shape.front is.at_giver;
              at_taker =
                  subst (λ u. AtTaker (record s.memory { first = first_or s.memory.last ps }) ps u)
                    (sym (update_self s.taker 0 outside)) tt;
              alone = update_others s.taker outside is.alone;
            },
          ))
    takes_kept used free xs is at (fail f x n ne) =
        walked used free xs looking none is is.history tt

module _ {V : Type 0} where
  Step-kept :
      (size : ℕ) {s t : System V}
      → 0 < size
      → Consistent size s
      → Step one_pops size s t
      → Consistent size t
  unfolding MayPop
  Step-kept size {s} lo (used, free, xs, is) (call_push v at) = (
    used,
    free,
    xs,
    record {
      history = is.history;
      shape = is.shape;
      at_giver = tt;
      at_taker = is.at_taker;
      alone = is.alone;
    },
  )
  Step-kept size {s} lo (used, free, xs, is) (call_pop i at may) =
      rw may (walked size s used free xs looking none is is.history tt)
  Step-kept size {s} lo (used, free, xs, is) (gives {x} at step) =
      gives_kept size s used free xs is lo
        (subst (λ g. AtGiver size s.memory used free g) at is.at_giver) step
  Step-kept size {s} lo (used, free, xs, is) (takes zero at step) =
      takes_kept size s used free xs is (subst (λ t. AtTaker s.memory used t) at is.at_taker) step
  Step-kept size {s} lo (used, free, xs, is) (takes (suc i) at step) =
      absurd (Take-busy step (sym at ∙ is.alone (suc i) (omega arith)))

  start_kept : (size b : ℕ) (d : V) → b ≢ null → 0 < size → Consistent size (init b size d)
  unfolding init
  start_kept size b d ne lo = (
    [],
    addresses (b + 1) (size - 1),
    [],
    record {
      history = refl;
      shape = record { ring = cycle-Linked (λ _. none) b size d lo ne; front = refl; filled = tt };
      at_giver = tt;
      at_taker = tt;
      alone = λ i ne. refl;
    },
  )

  -- Whatever the threads do, the ring stays in shape.
  pub Reach-Consistent :
      {size b : ℕ} {d : V} {s : System V}
      → b ≢ null
      → 0 < size
      → Reach one_pops size b d s
      → Consistent size s
  Reach-Consistent {size} {b} {d} ne lo start = start_kept size b d ne lo
  Reach-Consistent {size} {b} {d} ne lo (later r step) =
      Step-kept size lo (Reach-Consistent ne lo r) step
