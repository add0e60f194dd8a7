-- ===== src/Concurrent/Ring/Threads/Moves.antt =====
-- Each step of a thread keeps the ring of `spmc_queue` in src/Concurrent.hpp in shape, where one thread pops.
use icon.Prelude.{
  ℕ, ◌+◌, ◌-◌, ◌<◌, ◌≡◌, refl, ap, ◌∙◌, sym, ◌≢◌, true, false, Option, some, List, [], ◌∷◌, ◌++◌,
  append_assoc, arith, subst,
}
use icon.Concurrent.Memory.{Ptr, Node, put}
use icon.Concurrent.Memory.Links.{has, first_or, next_of, Linked, put_self, put_ne}
use icon.Concurrent.Ring.Chains.{has-++, first_or-++, Linked-agree, Linked-rotate}
use icon.Concurrent.Ring.Growth.{value_of}
use icon.Concurrent.Ring.Holds.{Filled-agree, Filled-snoc}
use icon.Concurrent.Ring.Steps.{put_value-next}
use icon.Concurrent.Ring.Threads.{
  Memory, with_cycle, Giver, resting, loading, checking, allocating, closing, publishing, storing,
  advancing, Event, Give, load_last, has_room, is_full, allocate, close, publish, store, advance,
  System, note,
}
use icon.Concurrent.Ring.Threads.Shape.{
  nodes, AtGiver, IsRing, IsConsistent, snoc_ne, AtTaker-agree, AtTaker-more,
}
use icon.Concurrent.Ring.Threads.Growing.{
  Split-IsRing, fresh_out, with_cycle-others, cycle-Linked, allocated, closed, published, in_nodes,
  end_within, has_self,
}

kept_first :
    (first p stop : Ptr) (kept : List Ptr)
    → first ≡ p
    → first_or first kept ≡ first_or stop (kept ++ (p ∷ []))
kept_first first p stop [] e = e
kept_first first p stop (z ∷ zs) e = refl

taken_out :
    (a p last : Ptr) (ps free : List Ptr)
    → has a (p ∷ (ps ++ (last ∷ free))) ≡ false
    → has a (ps ++ (last ∷ (free ++ (p ∷ [])))) ≡ false
taken_out a p last ps free h =
    ap (has a) (sym (append_assoc ps (last ∷ free) (p ∷ [])))
    ∙ (has-++ a (ps ++ (last ∷ free)) (p ∷ []) ∙ ground arith)

has-front : (a : Ptr) (xs ys : List Ptr) → has a xs ≡ true → has a (xs ++ ys) ≡ true
has-front a xs ys h = ground (arith, has-++ a xs ys)

module _ {V : Type 0} where
  -- The ring once a value is in its last node
  stored :
      (m : Memory V) (o : Node V) (v : V) (used free : List Ptr) (xs : List V)
      → m.cell m.last ≡ some o
      → IsRing m used free xs
      → IsRing (record m { cell = put m.cell m.last (some (record o { value = v })) }) used free xs
  stored m o v used free xs there is =
      let s = Split-IsRing m used free xs is in
      let cell' = put m.cell m.last (some (record o { value = v })) in
      record {
        ring =
            Linked-agree m.cell cell' m.first (used ++ (m.last ∷ free))
              (λ a h. put_value-next m.cell m.last v o there a) is.ring;
        front = is.front;
        filled =
            Filled-agree m.cell cell' used xs
              (λ a h.
                ap value_of (put_ne m.cell m.last a _ (λ z. has_self a m.last used z s.out_used h)))
              is.filled;
      }

  -- The ring once its last node is one that has a value
  advanced :
      (m : Memory V) (v : V) (used free : List Ptr) (f : Ptr) (xs : List V)
      → value_of (m.cell m.last) ≡ some v
      → IsRing m used (f ∷ free) xs
      → IsRing (record m { last = f }) (used ++ (m.last ∷ [])) free (xs ++ (v ∷ []))
  advanced m v used free f xs value is = record {
    ring =
        subst (λ l. Linked m.cell m.first l) (sym (append_assoc used (m.last ∷ []) (f ∷ free)))
          is.ring;
    front = is.front ∙ sym (first_or-++ f used (m.last ∷ []));
    filled = Filled-snoc m.cell used xs m.last v is.filled value;
  }

  -- The ring once its first node is taken out
  pub taken :
      (m : Memory V) (p : Ptr) (ps free : List Ptr) (x : V) (xs : List V)
      → IsRing m (p ∷ ps) free (x ∷ xs)
      → IsRing (record m { first = first_or m.last ps }) ps (free ++ (p ∷ [])) xs
  taken m p ps free x xs is = record {
    ring = rotated ps (subst (λ f. Linked m.cell f (p ∷ (ps ++ (m.last ∷ free)))) is.front is.ring);
    front = refl;
    filled = is.filled.1;
  }
    where
      rotated :
          (ps : List Ptr)
          → Linked m.cell p (p ∷ (ps ++ (m.last ∷ free)))
          → Linked m.cell (first_or m.last ps) (ps ++ (m.last ∷ (free ++ (p ∷ []))))
      rotated [] h = Linked-rotate m.cell p m.last free h
      rotated (z ∷ zs) h =
          subst (λ l. Linked m.cell z l) (append_assoc (z ∷ zs) (m.last ∷ free) (p ∷ []))
            (Linked-rotate m.cell p z (zs ++ (m.last ∷ free)) h)

  -- What the thread that pushes knows is not touched by that.
  pub AtGiver-taken :
      (size : ℕ) (m : Memory V) (p : Ptr) (ps free : List Ptr) (g : Giver V)
      → m.first ≡ p
      → AtGiver size m (p ∷ ps) free g
      → AtGiver size (record m { first = first_or m.last ps }) ps (free ++ (p ∷ [])) g
  AtGiver-taken size m p ps free resting e h = tt
  AtGiver-taken size m p ps free (loading v) e h = tt
  AtGiver-taken size m p ps free (checking v l) e h = h
  AtGiver-taken size m p ps free (allocating v l) e h = h
  AtGiver-taken size m p ps free (closing v l b) e (at, chain, clear) =
      (at, chain, λ a h. taken_out a p m.last ps free (clear a h))
  AtGiver-taken size m p ps free (publishing v l b) e (at, c, clear) = (
    at,
    record {
      lost = c.lost;
      kept = c.kept ++ (p ∷ []);
      split = ap (λ l. l ++ (p ∷ [])) c.split ∙ append_assoc c.lost c.kept (p ∷ []);
      chain =
          subst (λ q. Linked m.cell q (nodes b size))
            (kept_first m.first p (first_or m.last ps) c.kept e) c.chain;
    },
    λ a h. taken_out a p m.last ps free (clear a h),
  )
  AtGiver-taken size m p ps free (storing v l) e (at, ne) = (at, snoc_ne free p)
  AtGiver-taken size m p ps free (advancing v l) e (at, ne, value) = (at, snoc_ne free p, value)

  -- Some ring, with what the threads know of it
  abbrev pub Consistent : ℕ → System V → Type 0
  Consistent size s =
      (used : List Ptr) × (free : List Ptr) × (xs : List V) × IsConsistent size s used free xs

  -- The thread that pushes changes no node with a value.
  given :
      (size : ℕ) (s : System V) (used free free' : List Ptr) (xs : List V)
      (cell' : Ptr → Option (Node V)) (g' : Giver V)
      → IsConsistent size s used free xs
      → IsRing (record s.memory { cell = cell' }) used free' xs
      → ((a : Ptr) → has a used ≡ true → cell' a ≡ s.memory.cell a)
      → AtGiver size (record s.memory { cell = cell' }) used free' g'
      → Consistent size (record s { memory = record s.memory { cell = cell' }; giver = g' })
  given size s used free free' xs cell' g' is shape same at = (
    used,
    free',
    xs,
    record {
      history = is.history;
      shape = shape;
      at_giver = at;
      at_taker =
          AtTaker-agree s.memory (record s.memory { cell = cell' }) used (s.taker 0) refl
            is.shape.front same is.at_taker;
      alone = is.alone;
    },
  )

  room :
      (m : Memory V) (used free : List Ptr) (xs : List V) (n : Ptr)
      → IsRing m used free xs
      → next_of (m.cell m.last) ≡ some n
      → n ≢ m.first
      → free ≢ []
  room m used [] xs n is e ne =
      let r = Split-IsRing m used [] xs is in absurd (ne (ground (arith, e, r.there, r.leads)))
  room m used (f ∷ fs) xs n is e ne = λ z. cc

  pub gives_kept :
      (size : ℕ) (s : System V) (used free : List Ptr) (xs : List V) {g g' : Giver V}
      {m' : Memory V} {e : Option (Event V)}
      → IsConsistent size s used free xs
      → 0 < size
      → AtGiver size s.memory used free g
      → Give size s.memory g m' g' e
      → Consistent size (record s { memory = m'; giver = g'; log = note e s.log })
  gives_kept size s used free xs is lo at (load_last v) =
      given size s used free free xs s.memory.cell (checking v s.memory.last) is is.shape
        (λ a h. refl) refl
  gives_kept size s used free xs is lo at (has_room v l n e ne) =
      given size s used free free xs s.memory.cell (storing v l) is is.shape (λ a h. refl)
        (
          at,
          room s.memory used free xs n is.shape (ap (λ a. next_of (s.memory.cell a)) (sym at) ∙ e)
              ne,
        )
  gives_kept size s used free xs is lo at (is_full v l e) =
      given size s used free free xs s.memory.cell (allocating v l) is is.shape (λ a h. refl) at
  gives_kept size s used free xs is lo at (allocate v l b d ne fresh) =
      let (shape, clear) = allocated s.memory b size d used free xs lo fresh is.shape in
      given size s used free free xs (with_cycle s.memory.cell b size d) (closing v l b) is shape
        (λ a h. with_cycle-others s.memory.cell b size d a (
          fresh_out s.memory b size used free xs fresh is.shape a
            (has-front a used (s.memory.last ∷ free) h)))
        (at, cycle-Linked s.memory.cell b size d lo ne, clear)
  gives_kept size s used free xs is lo at (close v l b o there) =
      let (shape, c) = closed s.memory b size o used free xs lo there at.1 at.2 is.shape in
      let inside : has (b + (size - 1)) (nodes b size) ≡ true =
        in_nodes (b + (size - 1)) b size lo ∙ end_within b size lo in
      given size s used free free xs
        (put s.memory.cell (b + (size - 1)) (some (record o { next = s.memory.first })))
        (publishing v l b) is shape
        (λ a h. put_ne s.memory.cell (b + (size - 1)) a _ (λ z.
          has_self a (b + (size - 1)) (used ++ (s.memory.last ∷ free)) z
            (at.2 (b + (size - 1)) inside) (has-front a used (s.memory.last ∷ free) h)))
        (at.0, c, at.2)
  gives_kept size s used free xs is lo at (publish v l b o there) =
      let r = Split-IsRing s.memory used free xs is.shape in
      let there' : s.memory.cell s.memory.last ≡ some o = ap s.memory.cell (sym at.0) ∙ there in
      rw (at.0) (
        given size s used free (nodes b size ++ at.1.kept) xs
          (put s.memory.cell s.memory.last (some (record o { next = b }))) (storing v s.memory.last)
          is (published s.memory b size o used free xs lo there' at.1 at.2 is.shape)
          (λ a h.
            put_ne s.memory.cell s.memory.last a _
              (λ z. has_self a s.memory.last used z r.out_used h))
          (refl, λ z. cc))
  gives_kept size s used free xs is lo at (store v l o there) =
      let r = Split-IsRing s.memory used free xs is.shape in
      let there' : s.memory.cell s.memory.last ≡ some o = ap s.memory.cell (sym at.0) ∙ there in
      rw (at.0) (
        given size s used free free xs
          (put s.memory.cell s.memory.last (some (record o { value = v })))
          (advancing v s.memory.last) is (stored s.memory o v used free xs there' is.shape)
          (λ a h.
            put_ne s.memory.cell s.memory.last a _
              (λ z. has_self a s.memory.last used z r.out_used h))
          (refl, at.1, ap value_of (put_self s.memory.cell s.memory.last _)))
  gives_kept size s used [] xs is lo at (advance v l n e) = absurd (at.1 refl)
  gives_kept size s used (f ∷ fs) xs is lo at (advance v l n e) =
      let r = Split-IsRing s.memory used (f ∷ fs) xs is.shape in
      let next : some n ≡ some f =
        sym e
        ∙ (ap (λ a. next_of (s.memory.cell a)) at.0 ∙ (ap next_of r.there ∙ ap some r.leads)) in
      let same : n ≡ f = ground (arith, next) in
      rw same (
        used ++ (s.memory.last ∷ []),
        fs,
        xs ++ (v ∷ []),
        record {
          history = (xs, is.history, refl);
          shape =
              advanced s.memory v used fs f xs
                (ap (λ a. value_of (s.memory.cell a)) (sym at.0) ∙ at.2) is.shape;
          at_giver = tt;
          at_taker = AtTaker-more s.memory f used s.memory.last (s.taker 0) is.at_taker;
          alone = is.alone;
        },
      )
