-- ===== src/Concurrent/Ring/Threads/Fifo.antt =====
-- What any interleaving of one thread that pushes and one that pops does to a `spmc_queue` of
-- src/Concurrent.hpp.
use icon.Prelude.{
  ℕ, ◌+◌, ◌-◌, ◌<◌, ◌≡◌, refl, ap, ◌∙◌, sym, ◌≢◌, ◌⊎◌, inl, inr, true, Option, none, some, List, [],
  ◌∷◌, arith,
}
use native.Mathlib.Decide.{ℕ_discrete}
use icon.Concurrent.Memory.{Ptr, null, Node}
use icon.Concurrent.Memory.Links.{first_or, next_of}
use icon.Concurrent.Ring.Blocks.{within}
use icon.Concurrent.Ring.Chains.{first_or-++, Linked-node}
use icon.Concurrent.Ring.Growth.{value_of}
use icon.Concurrent.Ring.Threads.{
  Memory, Giver, resting, loading, checking, allocating, closing, publishing, storing, advancing,
  Taker, outside, looking, comparing, reading, following, swapping, Event, Give, load_last,
  has_room, is_full, allocate, close, publish, store, advance, Take, load_first, is_empty, has_more,
  read, follow, swap, fail, After, System, one_pops, Reach,
}
use icon.Concurrent.Ring.Threads.Shape.{nodes, AtGiver, AtTaker, IsRing}
use icon.Concurrent.Ring.Threads.Growing.{Split-IsRing, in_nodes, end_within}
use icon.Concurrent.Ring.Threads.Takes.{Reach-Consistent}

module _ {V : Type 0} where
  -- However a thread that pushes and one that pops interleave on a new `spmc_queue` with blocks of `size` nodes, one at
  -- least, of which the first is not at NULL: the events in the order of their decisive steps are those of a list to
  -- which `push` appends and from which `pop` takes the first, and the ring holds exactly the list that they leave.
  pub Reach-After :
      {size b : ℕ} {d : V} {s : System V}
      → b ≢ null
      → 0 < size
      → Reach one_pops size b d s
      → (used : List Ptr) × (free : List Ptr) × (xs : List V) × After s.log xs
        × IsRing s.memory used free xs
  Reach-After ne lo r =
      let (used, free, xs, is) = Reach-Consistent ne lo r in (used, free, xs, is.history, is.shape)

  -- Some step of the thread that pops
  pub record TakesOn (m : Memory V) (t : Taker V) : Type 0 where
    pub memory : Memory V
    pub place : Taker V
    pub event : Option (Event V)
    pub step : Take m t memory place event

  pub record GivesOn (size : ℕ) (m : Memory V) (g : Giver V) : Type 0 where
    pub memory : Memory V
    pub place : Giver V
    pub event : Option (Event V)
    pub step : Give size m g memory place event

  takes_on :
      (m : Memory V) (used free : List Ptr) (xs : List V) (t : Taker V)
      → IsRing m used free xs
      → AtTaker m used t
      → t ≢ outside
      → TakesOn m t
  takes_on m used free xs outside is at ne = absurd (ne refl)
  takes_on m used free xs looking is at ne = record {
    memory = m;
    place = comparing m.first;
    event = none;
    step = load_first;
  }
  takes_on m used free xs (comparing f) is at ne = elim (ℕ_discrete f m.last) [
    | yes e ↦ record { memory = m; place = outside; event = _; step = is_empty f e }
    | no e ↦ record { memory = m; place = reading f; event = none; step = has_more f e }
  ]
  takes_on m [] free xs (reading f) is at ne = absurd (at.1 refl)
  takes_on m (p ∷ ps) free [] (reading f) is at ne = absurd is.filled
  takes_on m (p ∷ ps) free (x ∷ xs) (reading f) is at ne = record {
    memory = m;
    place = following f x;
    event = none;
    step = read f x (ap (λ a. value_of (m.cell a)) (at.0 ∙ is.front) ∙ is.filled.0);
  }
  takes_on m [] free xs (following f x) is at ne = absurd (at.1 refl)
  takes_on m (p ∷ ps) free xs (following f x) is at ne = record {
    memory = m;
    place = swapping f x (first_or m.last ps);
    event = none;
    step = follow f x (first_or m.last ps) (
        ap (λ a. next_of (m.cell a)) (at.0 ∙ is.front)
        ∙ (is.ring.2 ∙ ap some (first_or-++ m.first ps (m.last ∷ free))));
  }
  takes_on m used free xs (swapping f x n) is at ne = record {
    memory = record m { first = n };
    place = outside;
    event = _;
    step = swap f x n (sym at.0);
  }

  node_of : (c : Option (Node V)) → next_of c ≢ none → (n : Node V) × (c ≡ some n)
  node_of none h = absurd (h refl)
  node_of (some n) h = (n, refl)

  gives_on :
      (size : ℕ) (m : Memory V) (used free : List Ptr) (xs : List V) (g : Giver V) (b : Ptr) (d : V)
      → 0 < size
      → b ≢ null
      → ((a : Ptr) → within b size a ≡ true → m.cell a ≡ none)
      → IsRing m used free xs
      → AtGiver size m used free g
      → g ≢ resting
      → GivesOn size m g
  gives_on size m used free xs resting b d lo real fresh is at ne = absurd (ne refl)
  gives_on size m used free xs (loading v) b d lo real fresh is at ne = record {
    memory = m;
    place = checking v m.last;
    event = none;
    step = load_last v;
  }
  gives_on size m used free xs (checking v l) b d lo real fresh is at ne =
      let r = Split-IsRing m used free xs is in
      let next : next_of (m.cell l) ≡ some r.node.next =
        ap (λ a. next_of (m.cell a)) at ∙ ap next_of r.there in
      elim (ℕ_discrete r.node.next m.first) [
        | yes e ↦ record {
          memory = m;
          place = allocating v l;
          event = none;
          step = is_full v l (next ∙ ap some e);
        }
        | no e ↦ record {
          memory = m;
          place = storing v l;
          event = none;
          step = has_room v l r.node.next next e;
        }
      ]
  gives_on size m used free xs (allocating v l) b d lo real fresh is at ne = record {
    memory = _;
    place = closing v l b;
    event = none;
    step = allocate v l b d real fresh;
  }
  gives_on size m used free xs (closing v l c) b d lo real fresh is at ne =
      let (n, there) = node_of (m.cell (c + (size - 1))) (
        Linked-node m.cell c (nodes c size) (c + (size - 1)) at.1
          (in_nodes (c + (size - 1)) c size lo ∙ end_within c size lo)) in
      record { memory = _; place = publishing v l c; event = none; step = close v l c n there }
  gives_on size m used free xs (publishing v l c) b d lo real fresh is at ne =
      let r = Split-IsRing m used free xs is in
      record {
        memory = _;
        place = storing v l;
        event = none;
        step = publish v l c r.node (ap m.cell at.0 ∙ r.there);
      }
  gives_on size m used free xs (storing v l) b d lo real fresh is at ne =
      let r = Split-IsRing m used free xs is in
      record {
        memory = _;
        place = advancing v l;
        event = none;
        step = store v l r.node (ap m.cell at.0 ∙ r.there);
      }
  gives_on size m used free xs (advancing v l) b d lo real fresh is at ne =
      let r = Split-IsRing m used free xs is in
      record {
        memory = _;
        place = resting;
        event = _;
        step = advance v l r.node.next (ap (λ a. next_of (m.cell a)) at.0 ∙ ap next_of r.there);
      }

  giver-cases : (g : Giver V) → (g ≡ resting) ⊎ (g ≢ resting)
  giver-cases resting = inl refl
  giver-cases (loading v) = inr (λ z. cc)
  giver-cases (checking v l) = inr (λ z. cc)
  giver-cases (allocating v l) = inr (λ z. cc)
  giver-cases (closing v l b) = inr (λ z. cc)
  giver-cases (publishing v l b) = inr (λ z. cc)
  giver-cases (storing v l) = inr (λ z. cc)
  giver-cases (advancing v l) = inr (λ z. cc)

  taker-cases : (t : Taker V) → (t ≡ outside) ⊎ (t ≢ outside)
  taker-cases outside = inl refl
  taker-cases looking = inr (λ z. cc)
  taker-cases (comparing f) = inr (λ z. cc)
  taker-cases (reading f) = inr (λ z. cc)
  taker-cases (following f x) = inr (λ z. cc)
  taker-cases (swapping f x n) = inr (λ z. cc)

  -- However a thread that pushes and one that pops interleave on a new `spmc_queue` with blocks of `size` nodes, one at
  -- least, of which the first is not at NULL: where memory for one more block is free, each thread is outside of `push`
  -- or `pop` or has a next step, since every node it reads is there.
  pub Reach-goes_on :
      {size b : ℕ} {d : V} {s : System V} (c : Ptr)
      → b ≢ null
      → 0 < size
      → c ≢ null
      → ((a : Ptr) → within c size a ≡ true → s.memory.cell a ≡ none)
      → Reach one_pops size b d s
      → ((s.giver ≡ resting) ⊎ GivesOn size s.memory s.giver)
        × ((s.taker 0 ≡ outside) ⊎ TakesOn s.memory (s.taker 0))
  Reach-goes_on {size} {b} {d} {s} c ne lo real fresh r =
      let (used, free, xs, is) = Reach-Consistent ne lo r in
      (
        elim (giver-cases s.giver) [
          | inl e ↦ inl e
          | inr e ↦
              inr (
                gives_on size s.memory used free xs s.giver c d lo real fresh is.shape is.at_giver
                  e)
        ],
        elim (taker-cases (s.taker 0)) [
          | inl e ↦ inl e
          | inr e ↦ inr (takes_on s.memory used free xs (s.taker 0) is.shape is.at_taker e)
        ],
      )

  -- The steps that are left to a call of `pop` where no exchange fails
  abbrev pub steps_left : Taker V → ℕ
  steps_left outside = 0
  steps_left looking = 5
  steps_left (comparing f) = 4
  steps_left (reading f) = 3
  steps_left (following f x) = 2
  steps_left (swapping f x n) = 1

  takes_less :
      {m m' : Memory V} {t t' : Taker V} {e : Option (Event V)} (used : List Ptr)
      → AtTaker m used t
      → Take m t m' t' e
      → steps_left t' < steps_left t
  takes_less used at load_first = omega arith
  takes_less used at (is_empty f e) = omega arith
  takes_less used at (has_more f e) = omega arith
  takes_less used at (read f x e) = omega arith
  takes_less used at (follow f x n e) = omega arith
  takes_less used at (swap f x n e) = omega arith
  takes_less used at (fail f x n ne) = absurd (ne (sym at.0))

  -- However a thread that pushes and one that pops interleave on a new `spmc_queue` with blocks of `size` nodes, one at
  -- least, of which the first is not at NULL: each next step of a call of `pop` leaves it fewer steps than before, of
  -- five at its start. So no exchange fails, whatever `push` does meanwhile, and a call of `pop` takes five
  -- steps at most.
  pub Reach-takes_less :
      {size b : ℕ} {d : V} {s : System V} {m : Memory V} {t : Taker V} {e : Option (Event V)}
      → b ≢ null
      → 0 < size
      → Reach one_pops size b d s
      → Take s.memory (s.taker 0) m t e
      → steps_left t < steps_left (s.taker 0)
  Reach-takes_less ne lo r step =
      let (used, free, xs, is) = Reach-Consistent ne lo r in takes_less used is.at_taker step
