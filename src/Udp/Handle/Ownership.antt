-- ===== src/Udp/Handle/Ownership.antt =====
-- What the objects `udp::Endpoint` of src/UDP.cpp own.
use icon.Prelude.{
  ℕ, ◌≡◌, refl, ap, ◌∙◌, subst, ◌≢◌, ◌⊎◌, inl, inr, true, false, Option, none, some, ◌==◌,
  if◌then◌else◌, arith, Option-cases,
}
use native.Mathlib.Decide.{ℕ_discrete}
use icon.Udp.Handle.{Handle, Heap, put, release, World}

-- The address that an object owns, or 0
unfoldable pub owned : Option Handle → ℕ
owned none = 0
owned (some e) = if e.ref then 0 else e.ptr

-- Each object that owns an address has it alone, and an endpoint is there; the endpoints `outside` are there, of which
-- objects own none; and no other endpoint is there.
pub record IsOwned {P : Type 0} (outside : Heap P) (w : World P) : Type 0 where
  pub live : (i : ℕ) → owned (w.handles i) ≢ 0 → w.heap (owned (w.handles i)) ≢ none
  pub own : (i : ℕ) → owned (w.handles i) ≢ 0 → outside (owned (w.handles i)) ≡ none
  pub alone :
      (i j : ℕ) → owned (w.handles i) ≢ 0 → owned (w.handles i) ≡ owned (w.handles j) → i ≡ j
  pub kept : (p : ℕ) → outside p ≢ none → w.heap p ≡ outside p
  pub no_leak : (p : ℕ) → outside p ≡ none → w.heap p ≢ none → (i : ℕ) × (owned (w.handles i) ≡ p)
  pub refers : (i : ℕ) (e : Handle) → w.handles i ≡ some e → e.ref ≡ true → outside e.ptr ≢ none
  pub null_free : w.heap 0 ≡ none

module _ {P : Type 0} (outside : Heap P) where
  -- An object that owns nothing becomes one that owns nothing.
  pub stays :
      (w : World P) (i : ℕ) (c : Option Handle)
      → IsOwned outside w
      → owned (w.handles i) ≡ 0
      → owned c ≡ 0
      → ((e : Handle) → c ≡ some e → e.ref ≡ true → outside e.ptr ≢ none)
      → IsOwned outside (record w { handles = put w.handles i c })
  unfolding put
  stays w i c is free free' points = record {
    live = λ j. ground (arith, is.live j);
    own = λ j. ground (arith, is.own j);
    alone = λ j k. ground (arith, is.alone j k);
    kept = is.kept;
    no_leak = λ p o h. let (k, at) = is.no_leak p o h in (k, ground (arith, is.null_free, at));
    refers = λ j e at is_ref. elim (ℕ_discrete j i) [
      | yes y ↦ points e (ground arith) is_ref
      | no n ↦ is.refers j e (ground arith) is_ref
    ];
    null_free = is.null_free;
  }

  owned-put :
      (hs : ℕ → Option Handle) (i : ℕ) (c : Option Handle) (j : ℕ)
      → owned (put hs i c j) ≡ (if j == i then owned c else owned (hs j))
  unfolding put
  owned-put hs i c j = ground arith

  fresh-outside : (w : World P) (a : ℕ) → IsOwned outside w → w.heap a ≡ none → outside a ≡ none
  fresh-outside w a is fresh = elim (Option-cases (outside a)) [
    | inl e ↦ e
    | inr (x, e) ↦ ground (arith, e, fresh, is.kept a)
  ]

  -- An object that owns nothing becomes one that owns a new endpoint at `a`.
  pub gains :
      (w : World P) (i a : ℕ) (x : P)
      → IsOwned outside w
      → owned (w.handles i) ≡ 0
      → a ≢ 0
      → w.heap a ≡ none
      → IsOwned outside (record {
        heap = put w.heap a (some x);
        handles = put w.handles i (some (record { ptr = a; ref = false }));
      })
  unfolding put owned
  gains w i a x is free real fresh =
      let o = owned-put w.handles i (some (record { ptr = a; ref = false })) in
      let new = fresh-outside w a is fresh in
      record {
        live = λ j. ground (arith, o j, is.live j);
        own = λ j. ground (arith, o j, is.own j, new);
        alone = λ j k. ground (arith, o j, o k, is.alone j k, is.live j, is.live k);
        kept = λ p. ground (arith, is.kept p, new);
        no_leak = λ p out h. elim (ℕ_discrete p a) [
          | yes e ↦ (i, ground (arith, o i, e))
          | no ne ↦
              let (k, at) = is.no_leak p out (ground arith) in
              (k, ground (arith, o k, at, is.null_free))
        ];
        refers = λ j e at is_ref. elim (ℕ_discrete j i) [
          | yes y ↦ ground (arith, at)
          | no n ↦ is.refers j e (ground arith) is_ref
        ];
        null_free = ground (arith, is.null_free);
      }

  -- An object gives its endpoint back, and is no more.
  loses :
      (w : World P) (i : ℕ)
      → IsOwned outside w
      → owned (w.handles i) ≢ 0
      → IsOwned outside
          (record { heap = put w.heap (owned (w.handles i)) none; handles = put w.handles i none })
  unfolding put owned
  loses w i is has =
      let o = owned-put w.handles i none in
      let p = owned (w.handles i) in
      record {
        live = λ j. ground (arith, o j, is.live j, is.alone j i);
        own = λ j. ground (arith, o j, is.own j);
        alone = λ j k. ground (arith, o j, o k, is.alone j k);
        kept = λ q. ground (arith, is.kept q, is.own i);
        no_leak = λ q out h.
            let (k, at) = is.no_leak q out (ground arith) in (k, ground (arith, o k, at));
        refers = λ j e at is_ref. elim (ℕ_discrete j i) [
          | yes y ↦ ground (arith, at)
          | no n ↦ is.refers j e (ground arith) is_ref
        ];
        null_free = ground (arith, is.null_free);
      }

  -- `if(!ref && ptr) delete ptr` of an object, which then is no more
  pub released :
      (w : World P) (i : ℕ) (e : Handle)
      → IsOwned outside w
      → w.handles i ≡ some e
      → (h : Heap P) × (release e w.heap ≡ some h)
        × IsOwned outside (record { heap = h; handles = put w.handles i none })
        × ((a : ℕ) → a ≢ 0 → (w.heap a ≡ none) ⊎ (a ≡ owned (w.handles i)) → h a ≡ none)
  unfolding release owned put
  released w i e is at = elim (ℕ_discrete (owned (some e)) 0) [
    | yes y ↦ (
      w.heap,
      ground (arith, y),
      stays w i none is (ap owned at ∙ y) refl (λ f z. cc),
      λ a real fresh. elim fresh [ inl z ↦ z | inr z ↦ absurd (real (z ∙ (ap owned at ∙ y))) ],
    )
    | no n ↦
        let here : owned (w.handles i) ≡ e.ptr = ground (arith, at, n) in
        let has : owned (w.handles i) ≢ 0 = rw at n in
        elim (Option-cases (w.heap e.ptr)) [
          | inl y ↦ absurd (is.live i has (ap w.heap here ∙ y))
          | inr (x, y) ↦ (
            put w.heap e.ptr none,
            ground (arith, n, y),
            subst
                (λ p.
                  IsOwned outside
                    (record { heap = put w.heap p none; handles = put w.handles i none }))
                here (loses w i is has),
            λ a real fresh. elim fresh [
              | inl z ↦ ground (arith, z)
              | inr z ↦ ground (arith, z, here)
            ],
          )
        ]
  ]

  -- What an object points to is there.
  pub points_there :
      (w : World P) (j : ℕ) (e : Handle)
      → IsOwned outside w
      → w.handles j ≡ some e
      → e.ptr ≢ 0
      → (x : P) × (w.heap e.ptr ≡ some x)
  unfolding owned
  points_there w j e is at ne = elim (Option-cases (w.heap e.ptr)) [
    | inr there ↦ there
    | inl y ↦ ground (arith, y, at, is.live j, is.refers j e at, is.kept e.ptr)
  ]
