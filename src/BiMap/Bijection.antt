-- ===== src/BiMap/Bijection.antt =====
-- The two maps of a `BiMap` stay inverse to one another under each operation.
use icon.Prelude.{Option, none, some, ◌≡◌, arith, Option-cases, inl, inr}
use icon.Prelude.Map.{find, assign, find-assign, find-erase}
use icon.BiMap.{BiMap, erase_a, erase_b, insert, clear}
use mathlib.Core.Logic.{ite}

-- What a look-up gives when one answer is taken out.
unfoldable pub without {ℓ} : {A : Type ℓ} → Discrete A → A → Option A → Option A
without d x none = none
without d x (some a) = ite (d x a) none (some a)

module _ {ℓ} {A B : Type ℓ} (da : Discrete A) (db : Discrete B) where
  pub record IsBijection (m : BiMap A B) : Type ℓ where
    pub there : (a : A) (b : B) → find da m.t1t2 a ≡ some b → find db m.t2t1 b ≡ some a
    pub back : (a : A) (b : B) → find db m.t2t1 b ≡ some a → find da m.t1t2 a ≡ some b

  pub clear-IsBijection : (m : BiMap A B) → IsBijection (clear m)
  unfolding clear find
  clear-IsBijection m = record { there = λ a b e. cc; back = λ a b e. cc }

  module _ (m : BiMap A B) (is : IsBijection m) where
    -- `erase(const T1&)` in either map.
    pub find-erase_a :
        (x a : A) → find da (erase_a da db m x).t1t2 a ≡ ite (da x a) none (find da m.t1t2 a)
    unfolding erase_a
    find-erase_a x a = ground (arith, find-erase da m.t1t2 x a)

    pub find-erase_a_back :
        (x : A) (b : B) → find db (erase_a da db m x).t2t1 b ≡ without da x (find db m.t2t1 b)
    unfolding erase_a without
    find-erase_a_back x b = elim (Option-cases (find da m.t1t2 x)) [
      | inl e ↦ ground (arith, is.back x b)
      | inr (y, e) ↦ elim (Option-cases (find db m.t2t1 b)) [
        | inl f ↦ ground (arith, find-erase db m.t2t1 y b)
        | inr (a, f) ↦
            ground (arith, find-erase db m.t2t1 y b, is.there x y e, is.back a b f, is.back x b)
      ]
    ]

    -- `erase(const T2&)` in either map.
    pub find-erase_b :
        (y b : B) → find db (erase_b da db m y).t2t1 b ≡ ite (db y b) none (find db m.t2t1 b)
    unfolding erase_b
    find-erase_b y b = ground (arith, find-erase db m.t2t1 y b)

    pub find-erase_b_there :
        (y : B) (a : A) → find da (erase_b da db m y).t1t2 a ≡ without db y (find da m.t1t2 a)
    unfolding erase_b without
    find-erase_b_there y a = elim (Option-cases (find db m.t2t1 y)) [
      | inl e ↦ ground (arith, is.there a y)
      | inr (x, e) ↦ elim (Option-cases (find da m.t1t2 a)) [
        | inl f ↦ ground (arith, find-erase da m.t1t2 x a)
        | inr (b, f) ↦
            ground (arith, find-erase da m.t1t2 x a, is.back x y e, is.there a b f, is.there a y)
      ]
    ]

    pub erase_a-IsBijection : (x : A) → IsBijection (erase_a da db m x)
    erase_a-IsBijection x = record {
      there = λ a b h.
          unfold without in ground (arith, find-erase_a x a, find-erase_a_back x b, is.there a b);
      back = λ a b h.
          unfold without in ground (arith, find-erase_a x a, find-erase_a_back x b, is.back a b);
    }

    pub erase_b-IsBijection : (y : B) → IsBijection (erase_b da db m y)
    erase_b-IsBijection y = record {
      there = λ a b h.
          unfold without in ground (arith, find-erase_b y b, find-erase_b_there y a, is.there a b);
      back = λ a b h.
          unfold without in ground (arith, find-erase_b y b, find-erase_b_there y a, is.back a b);
    }

    -- A new pair of which neither half is known.
    assign-IsBijection :
        (a : A) (b : B)
        → find da m.t1t2 a ≡ none
        → find db m.t2t1 b ≡ none
        → IsBijection (record m { t1t2 = assign da m.t1t2 a b; t2t1 = assign db m.t2t1 b a })
    assign-IsBijection a b ha hb = record {
      there = λ x y h.
          ground (arith, find-assign da m.t1t2 a x b, find-assign db m.t2t1 b y a, is.there x y);
      back = λ x y h.
          ground (arith, find-assign da m.t1t2 a x b, find-assign db m.t2t1 b y a, is.back x y);
    }

  module _ (m : BiMap A B) (is : IsBijection m) (a : A) (b : B) where
    freed : BiMap A B
    freed = erase_b da db (erase_a da db m a) b

    -- After the two removals the old answers are left, without `a` and without `b`.
    freed_lookup :
        (x : A) → find da freed.t1t2 x ≡ without db b (ite (da a x) none (find da m.t1t2 x))
    unfolding freed
    freed_lookup x =
        let is' = erase_a-IsBijection m is a in
        rw (find-erase_b_there (erase_a da db m a) is' b x, find-erase_a m is a x)

    freed_lookup_back :
        (y : B) → find db freed.t2t1 y ≡ ite (db b y) none (without da a (find db m.t2t1 y))
    unfolding freed
    freed_lookup_back y =
        let is' = erase_a-IsBijection m is a in
        rw (find-erase_b (erase_a da db m a) is' b y, find-erase_a_back m is a y)

    freed_key : find da freed.t1t2 a ≡ none
    freed_key = rw freed_lookup (unfold without in ground arith)

    freed_value : find db freed.t2t1 b ≡ none
    freed_value = rw freed_lookup_back (ground arith)

    insert_inverse : IsBijection (insert da db m a b)
    unfolding insert freed
    insert_inverse =
        let is' = erase_b-IsBijection _ (erase_a-IsBijection m is a) b in
        assign-IsBijection freed is' a b freed_key freed_value

    insert_lookup :
        (x : A)
        → find da (insert da db m a b).t1t2 x
          ≡ ite (da a x) (some b) (without db b (find da m.t1t2 x))
    unfolding insert freed
    insert_lookup x =
        rw (find-assign da freed.t1t2 a x b, freed_lookup x) (unfold without in ground arith)

    insert_lookup_back :
        (y : B)
        → find db (insert da db m a b).t2t1 y
          ≡ ite (db b y) (some a) (without da a (find db m.t2t1 y))
    unfolding insert freed
    insert_lookup_back y =
        rw (find-assign db freed.t2t1 b y a, freed_lookup_back y) (unfold without in ground arith)

  -- If the two maps of a `BiMap` are inverse to one another, they are so after `insert(a, b)`, and
  -- then `a` is found at `b`, `b` at `a`, and every other pair that has neither `a` nor `b` in it is
  -- found as before, while the former partners of `a` and `b` are found no more.
  pub insert-IsBijection :
      (m : BiMap A B) (a : A) (b : B)
      → IsBijection m
      → IsBijection (insert da db m a b)
        × ((x : A)
            → find da (insert da db m a b).t1t2 x
              ≡ ite (da a x) (some b) (without db b (find da m.t1t2 x)))
        × ((y : B)
            → find db (insert da db m a b).t2t1 y
              ≡ ite (db b y) (some a) (without da a (find db m.t2t1 y)))
  insert-IsBijection m a b is =
      (insert_inverse m is a b, insert_lookup m is a b, insert_lookup_back m is a b)

  -- If the two maps of a `BiMap` are inverse to one another, they are so after `erase(a)` and after
  -- `erase(b)`; the first takes away `a` and its partner alone, the second `b` and its partner alone.
  pub erase-IsBijection :
      (m : BiMap A B) (a : A) (b : B)
      → IsBijection m
      → IsBijection (erase_a da db m a)
        × ((x : A) → find da (erase_a da db m a).t1t2 x ≡ ite (da a x) none (find da m.t1t2 x))
        × ((y : B) → find db (erase_a da db m a).t2t1 y ≡ without da a (find db m.t2t1 y))
        × IsBijection (erase_b da db m b)
        × ((y : B) → find db (erase_b da db m b).t2t1 y ≡ ite (db b y) none (find db m.t2t1 y))
        × ((x : A) → find da (erase_b da db m b).t1t2 x ≡ without db b (find da m.t1t2 x))
  erase-IsBijection m a b is = (
    erase_a-IsBijection m is a,
    find-erase_a m is a,
    find-erase_a_back m is a,
    erase_b-IsBijection m is b,
    find-erase_b m is b,
    find-erase_b_there m is b,
  )
