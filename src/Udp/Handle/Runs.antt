-- ===== src/Udp/Handle/Runs.antt =====
-- Any use of the objects `udp::Endpoint` of src/UDP.cpp that does not move one.
use icon.Prelude.{
  ℕ, ◌≡◌, refl, sym, ap, ◌∙◌, subst, fun_ext, ◌≢◌, ◌⊎◌, inl, inr, false, Option, none, some, List,
  [], ◌∷◌, arith, Option-cases,
}
use icon.Udp.Handle.{
  Handle, Heap, put, make_empty, make, of_global, copy, destroy, assign, World, Op, makes_empty,
  makes, constructs, copies, assigns, destroys, placed, apply, run,
}
use icon.Udp.Handle.Ownership.{owned, IsOwned, stays, gains, released, points_there}

-- An object that points to something
abbrev pub Points : {P : Type 0} → World P → ℕ → Type 0
Points w j = (e : Handle) × (w.handles j ≡ some e) × (e.ptr ≢ 0)

-- What a program sees to: a name is used for one object at a time, what an object only refers to stays, `new` gives
-- memory that is free, and no empty object is copied.
abbrev pub Allowed : {P : Type 0} → Heap P → World P → Op P → Type 0
Allowed outside w (makes_empty i) = w.handles i ≡ none
Allowed outside w (makes i p) = (w.handles i ≡ none) × (outside p ≢ none)
Allowed outside w (constructs i x a) = (w.handles i ≡ none) × (a ≢ 0) × (w.heap a ≡ none)
Allowed outside w (copies i j a) = (w.handles i ≡ none) × Points w j × (a ≢ 0) × (w.heap a ≡ none)
Allowed outside w (assigns i j a) =
    (i ≢ j)
    × (w.handles i ≢ none)
    × Points w j
    × (a ≢ 0)
    × ((w.heap a ≡ none) ⊎ (a ≡ owned (w.handles i)))
Allowed outside w (destroys i) = w.handles i ≢ none

-- Each is allowed once those before it are done.
abbrev pub AllowedEach : {P : Type 0} → Heap P → Option (World P) → List (Op P) → Type 0
AllowedEach outside none ops = Unit {0}
AllowedEach outside (some w) [] = Unit {0}
AllowedEach outside (some w) (op ∷ ops) =
    Allowed outside w op × AllowedEach outside (apply op w) ops

put-put : {A : Type 0} (f : ℕ → Option A) (i : ℕ) (c d : Option A) → put (put f i c) i d ≡ put f i d
unfolding put
put-put f i c d = fun_ext (λ j. ground arith)

module _ {P : Type 0} (outside : Heap P) where
  copied :
      (w : World P) (i a : ℕ) (e : Handle) (h : Heap P)
      → IsOwned outside (record { heap = h; handles = put w.handles i none })
      → (x : P) × (h e.ptr ≡ some x)
      → a ≢ 0
      → h a ≡ none
      → (w' : World P) × (placed w i (copy e a h) ≡ some w') × IsOwned outside w'
  unfolding copy placed put owned
  copied w i a e h is (x, there) real fresh = (
    record {
      heap = put h a (some x);
      handles = put w.handles i (some (record { ptr = a; ref = false }));
    },
    rw (placed, copy, there) refl,
    subst (λ f. IsOwned outside (record { heap = put h a (some x); handles = f }))
        (put-put w.handles i none (some (record { ptr = a; ref = false })))
        (gains outside (record { heap = h; handles = put w.handles i none }) i a x is (ground arith)
          real fresh),
  )

  -- A name that is not in use
  unused :
      (w : World P) (i : ℕ)
      → IsOwned outside w
      → w.handles i ≡ none
      → IsOwned outside (record w { handles = put w.handles i none })
  unfolding owned
  unused w i is free = stays outside w i none is (ap owned free) refl (λ e z. cc)

  pub apply-IsOwned :
      (op : Op P) (w : World P)
      → IsOwned outside w
      → Allowed outside w op
      → (w' : World P) × (apply op w ≡ some w') × IsOwned outside w'
  unfolding apply placed make_empty make of_global assign destroy owned put
  apply-IsOwned (makes_empty i) w is free = (
    _,
    refl,
    stays outside w i (some make_empty) is (ap owned free) refl (λ e z r. ground (arith, z, r)),
  )
  apply-IsOwned (makes i p) w is (free, there) = (
    _,
    refl,
    stays outside w i (some (make p)) is (ap owned free) refl (λ e z r. ground (arith, z, there)),
  )
  apply-IsOwned (constructs i x a) w is (free, real, fresh) =
      (_, refl, gains outside w i a x is (ap owned free) real fresh)
  apply-IsOwned (copies i j a) w is (free, (e, at, ne), real, fresh) =
      let (w', done, is') =
        copied w i a e w.heap (unused w i is free) (points_there outside w j e is at ne) real
          fresh in
      (w', rw (apply, at) done, is')
  apply-IsOwned (assigns i j a) w is (other, there, (f, at, ne), real, fresh) =
      elim (Option-cases (w.handles i)) [
        | inl z ↦ absurd (there z)
        | inr (e, here) ↦
            let (h, freed, is', empty) = released outside w i e is here in
            let stays_there : put w.handles i none j ≡ some f = ground (arith, at, other) in
            let (w', done, is'') =
              copied w i a f h is' (points_there outside _ j f is' (stays_there) ne) real
                (empty a real fresh) in
            (w', rw (apply, assign, here, at, freed) done, is'')
      ]
  apply-IsOwned (destroys i) w is there = elim (Option-cases (w.handles i)) [
    | inl z ↦ absurd (there z)
    | inr (e, here) ↦
        let (h, freed, is', empty) = released outside w i e is here in
        (_, rw (apply, destroy, here, freed) refl, is')
  ]

  run_kept :
      (ops : List (Op P)) (w : World P)
      → IsOwned outside w
      → AllowedEach outside (some w) ops
      → (w' : World P) × (run ops w ≡ some w') × IsOwned outside w'
  unfolding run
  run_kept [] w is allowed = (w, refl, is)
  run_kept (op ∷ ops) w is (here, later) =
      let (w', done, is') = apply-IsOwned op w is here in
      let (w'', rest, is'') =
        run_kept ops w' is' (subst (λ o. AllowedEach outside o ops) done later) in
      (w'', ap (λ o. elim o [ none ↦ none | some v ↦ run ops v ]) done ∙ rest, is'')

  accounted :
      (w : World P)
      → IsOwned outside w
      → (p : ℕ) → (w.heap p ≡ outside p) ⊎ (p ≢ 0) × ((i : ℕ) × (owned (w.handles i) ≡ p))
  accounted w is p = elim (Option-cases (outside p)) [
    | inr (x, e) ↦ inl (is.kept p (λ z. cc))
    | inl e ↦ elim (Option-cases (w.heap p)) [
      | inl z ↦ inl (z ∙ sym e)
      | inr (x, z) ↦ inr (λ y. ground (arith, y, is.null_free, z), is.no_leak p e (λ y. cc))
    ]
  ]

-- Take a program that has no object `udp::Endpoint` yet, and endpoints of Boost `outside` of them, which stay, and of
-- which none is at NULL. In any order it makes objects where there is none, empty ones, references to endpoints `outside`
-- or ones with an endpoint of their own, copies objects that are not empty, assigns to an object from another one that
-- is not empty, and destroys objects; it never moves one. `operator new` gives free memory that is not at NULL. Then every
-- call has a meaning, so nothing is deleted twice and nothing is read that is not there; each object that owns an
-- endpoint has it alone; and each address holds what it did before, or an object owns it: none is left when all objects
-- are destroyed.
pub run-IsOwned :
    {P : Type 0} (outside : Heap P) (ops : List (Op P))
    → outside 0 ≡ none
    → AllowedEach outside (some (record { heap = outside; handles = λ i. none })) ops
    → (w : World P) × (run ops (record { heap = outside; handles = λ i. none }) ≡ some w)
      × IsOwned outside w
      × ((p : ℕ) → (w.heap p ≡ outside p) ⊎ (p ≢ 0) × ((i : ℕ) × (owned (w.handles i) ≡ p)))
unfolding owned
run-IsOwned outside ops null_out allowed =
    let (w, done, is) =
      run_kept outside ops (record { heap = outside; handles = λ i. none })
        (record {
          live = λ i ne. absurd (ne refl);
          own = λ i ne. absurd (ne refl);
          alone = λ i j ne. absurd (ne refl);
          kept = λ p h. refl;
          no_leak = λ p e h. absurd (h e);
          refers = λ i e z. cc;
          null_free = null_out;
        })
        allowed in
    (w, done, is, accounted outside w is)
