-- ===== src/Concurrent/Equalizer/Sorting.antt =====
-- `sort` of `single_pool_multi_thread_equalizer` orders the pools.
use icon.Prelude.{
  ℕ, zero, suc, ◌-◌, ◌≤◌, ◌≡◌, refl, ap, ◌∙◌, Bool, true, false, List, [], ◌∷◌, length, ltb,
  if◌then◌else◌, arith, All, Bool-cases, inl, inr,
}
use mathlib.Core.List.{Perm}
use mathlib.Core.List.Perm
use icon.Concurrent.Linear.{Stack}
use icon.Concurrent.Equalizer.{sort_pass, sort_rounds, sort}

-- No pool has more than `m` objects.
abbrev pub AtMost : ℕ → List Stack → Type 0
AtMost m xs = All (λ y. y.size ≤ m) xs

-- No pool has more objects than one before it.
abbrev pub IsDescending : List Stack → Type 0
IsDescending [] = Unit {0}
IsDescending (x ∷ xs) = AtMost x.size xs × IsDescending xs

-- One step of the inner loop, on what it has made of the pools behind
step_cons : Stack → List Stack → Bool → List Stack × Bool
step_cons x [] end' = (x ∷ [], end')
step_cons x (y ∷ zs) end' =
    if ltb x.size y.size then (y ∷ (x ∷ zs), false) else (x ∷ (y ∷ zs), end')

sort_pass-cons :
    (x : Stack) (xs : List Stack)
    → sort_pass (x ∷ xs) ≡ step_cons x (sort_pass xs).0 (sort_pass xs).1
unfolding sort_pass step_cons
sort_pass-cons x xs = ground arith

step-length :
    (x : Stack) (ys : List Stack) (e : Bool) → length (step_cons x ys e).0 ≡ suc (length ys)
unfolding step_cons
step-length x [] e = refl
step-length x (y ∷ zs) e = ground arith

step-AtMost :
    (m : ℕ) (x : Stack) (ys : List Stack) (e : Bool)
    → x.size ≤ m
    → AtMost m ys
    → AtMost m (step_cons x ys e).0
unfolding step_cons
step-AtMost m x [] e h hs = (h, tt)
step-AtMost m x (y ∷ zs) e h (hy, hs) = elim (Bool-cases (ltb x.size y.size)) [
  | inl t ↦ rw t (hy, (h, hs))
  | inr f ↦ rw f (h, (hy, hs))
]

AtMost-mono : (m n : ℕ) (xs : List Stack) → m ≤ n → AtMost m xs → AtMost n xs
AtMost-mono m n [] le h = tt
AtMost-mono m n (x ∷ xs) le (h, hs) = (omega arith, AtMost-mono m n xs le hs)

-- The first pool after a step is at least as large as those behind.
Leads : List Stack → Type 0
Leads [] = Unit {0}
Leads (x ∷ xs) = AtMost x.size xs

step-Leads : (x : Stack) (ys : List Stack) (e : Bool) → Leads ys → Leads (step_cons x ys e).0
unfolding step_cons Leads
step-Leads x [] e h = tt
step-Leads x (y ∷ zs) e h = elim (Bool-cases (ltb x.size y.size)) [
  | inl t ↦ rw t (ground arith, h)
  | inr f ↦ rw f (ground arith, AtMost-mono y.size x.size zs (ground arith) h)
]

step-end :
    (x : Stack) (ys : List Stack) (e : Bool)
    → (step_cons x ys e).1 ≡ true
    → IsDescending ys
    → IsDescending (step_cons x ys e).0
unfolding step_cons
step-end x [] e h d = (tt, tt)
step-end x (y ∷ zs) e h (dy, ds) = elim (Bool-cases (ltb x.size y.size)) [
  | inl t ↦ cc
  | inr f ↦ rw f ((ground arith, AtMost-mono y.size x.size zs (ground arith) dy), (dy, ds))
]

step-end_of : (x : Stack) (ys : List Stack) (e : Bool) → (step_cons x ys e).1 ≡ true → e ≡ true
unfolding step_cons
step-end_of x [] e h = h
step-end_of x (y ∷ zs) e h = ground arith

step-top :
    (x : Stack) (ys : List Stack) (e : Bool) → AtMost x.size ys → step_cons x ys e ≡ (x ∷ ys, e)
unfolding step_cons
step-top x [] e h = refl
step-top x (y ∷ zs) e (h, hs) = ground arith

step-perm : (x : Stack) (ys : List Stack) (e : Bool) → Perm (step_cons x ys e).0 (x ∷ ys)
unfolding step_cons
step-perm x [] e = Perm.refl (x ∷ [])
step-perm x (y ∷ zs) e = elim (Bool-cases (ltb x.size y.size)) [
  | inl t ↦ rw t (Perm.swap x y zs)
  | inr f ↦ rw f (Perm.refl (x ∷ (y ∷ zs)))
]

-- The inner loop as a whole
sort_pass-perm : (xs : List Stack) → Perm (sort_pass xs).0 xs
sort_pass-perm [] = unfold sort_pass in Perm.refl []
sort_pass-perm (x ∷ xs) =
    rw (sort_pass-cons x xs)
      (Perm.trans (step-perm x (sort_pass xs).0 (sort_pass xs).1) (Perm.cons x (sort_pass-perm xs)))

length-sort_pass : (xs : List Stack) → length (sort_pass xs).0 ≡ length xs
length-sort_pass [] = unfold sort_pass in refl
length-sort_pass (x ∷ xs) =
    rw (sort_pass-cons x xs)
      (step-length x (sort_pass xs).0 (sort_pass xs).1 ∙ ap suc (length-sort_pass xs))

sort_pass-AtMost : (m : ℕ) (xs : List Stack) → AtMost m xs → AtMost m (sort_pass xs).0
sort_pass-AtMost m [] h = unfold sort_pass in tt
sort_pass-AtMost m (x ∷ xs) (h, hs) =
    rw (sort_pass-cons x xs)
      (step-AtMost m x (sort_pass xs).0 (sort_pass xs).1 h (sort_pass-AtMost m xs hs))

sort_pass-Leads : (xs : List Stack) → Leads (sort_pass xs).0
sort_pass-Leads [] = unfold sort_pass in unfold Leads in tt
sort_pass-Leads (x ∷ xs) =
    rw (sort_pass-cons x xs) (step-Leads x (sort_pass xs).0 (sort_pass xs).1 (sort_pass-Leads xs))

sort_pass-end : (xs : List Stack) → (sort_pass xs).1 ≡ true → IsDescending (sort_pass xs).0
sort_pass-end [] h = unfold sort_pass in tt
sort_pass-end (x ∷ xs) h =
    let e = rw (sort_pass-cons x xs) at h in
    rw (sort_pass-cons x xs) (
      step-end x (sort_pass xs).0 (sort_pass xs).1 e
        (sort_pass-end xs (step-end_of x (sort_pass xs).0 (sort_pass xs).1 e)))

-- A largest pool in front stays there.
sort_pass-top :
    (x : Stack) (xs : List Stack)
    → AtMost x.size xs
    → sort_pass (x ∷ xs) ≡ (x ∷ (sort_pass xs).0, (sort_pass xs).1)
sort_pass-top x xs h =
    sort_pass-cons x xs
    ∙ step-top x (sort_pass xs).0 (sort_pass xs).1 (sort_pass-AtMost x.size xs h)

sort_rounds-suc :
    (k : ℕ) (xs : List Stack)
    → sort_rounds (suc k) xs
      ≡ (if (sort_pass xs).1 then (sort_pass xs).0 else sort_rounds k (sort_pass xs).0)
unfolding sort_rounds
sort_rounds-suc k xs = refl

sort_rounds-top :
    (k : ℕ) (x : Stack) (xs : List Stack)
    → AtMost x.size xs
    → sort_rounds k (x ∷ xs) ≡ x ∷ sort_rounds k xs
sort_rounds-top zero x xs h = unfold sort_rounds in refl
sort_rounds-top (suc k) x xs h =
    rw (sort_rounds-suc k (x ∷ xs), sort_rounds-suc k xs, sort_pass-top x xs h)
      (ground (arith, sort_rounds-top k x (sort_pass xs).0 (sort_pass-AtMost x.size xs h)))

sort_rounds-perm : (k : ℕ) (xs : List Stack) → Perm (sort_rounds k xs) xs
sort_rounds-perm zero xs = unfold sort_rounds in Perm.refl xs
sort_rounds-perm (suc k) xs = rw (sort_rounds-suc k xs) (elim (Bool-cases (sort_pass xs).1) [
  | inl t ↦ rw t (sort_pass-perm xs)
  | inr f ↦ rw f (Perm.trans (sort_rounds-perm k (sort_pass xs).0) (sort_pass-perm xs))
])

sort_rounds-AtMost : (k m : ℕ) (xs : List Stack) → AtMost m xs → AtMost m (sort_rounds k xs)
sort_rounds-AtMost zero m xs h = unfold sort_rounds in h
sort_rounds-AtMost (suc k) m xs h = rw (sort_rounds-suc k xs) (elim (Bool-cases (sort_pass xs).1) [
  | inl t ↦ rw t (sort_pass-AtMost m xs h)
  | inr f ↦ rw f (sort_rounds-AtMost k m (sort_pass xs).0 (sort_pass-AtMost m xs h))
])

-- A list that is led by a largest pool needs one round less.
led-IsDescending :
    (k : ℕ) (ys : List Stack)
    → ((zs : List Stack) → length zs ≤ suc k → IsDescending (sort_rounds k zs))
    → Leads ys
    → length ys ≤ suc (suc k)
    → IsDescending (sort_rounds k ys)
led-IsDescending k [] ih lead fuel = ih [] (omega arith)
led-IsDescending k (y ∷ ys) ih lead fuel =
    let top : AtMost y.size ys = unfold Leads in lead in
    rw (sort_rounds-top k y ys top) (sort_rounds-AtMost k y.size ys top, ih ys (omega arith))

sort_rounds-IsDescending :
    (k : ℕ) (xs : List Stack) → length xs ≤ suc k → IsDescending (sort_rounds k xs)
sort_rounds-IsDescending zero [] h = unfold sort_rounds in tt
sort_rounds-IsDescending zero (x ∷ []) h = unfold sort_rounds in (tt, tt)
sort_rounds-IsDescending zero (x ∷ (y ∷ xs)) h = absurd (omega arith)
sort_rounds-IsDescending (suc k) xs h =
    rw (sort_rounds-suc k xs) (elim (Bool-cases (sort_pass xs).1) [
      | inl t ↦ rw t (sort_pass-end xs t)
      | inr f ↦ rw f (
          led-IsDescending k (sort_pass xs).0 (sort_rounds-IsDescending k) (sort_pass-Leads xs)
            (omega (arith, length-sort_pass xs)))
    ])

-- `sort` ends with the same pools in an order in which no pool has more objects than one before it.
pub sort-IsDescending : (xs : List Stack) → IsDescending (sort xs) × Perm (sort xs) xs
unfolding sort
sort-IsDescending xs =
    (sort_rounds-IsDescending (length xs - 1) xs (omega arith), sort_rounds-perm (length xs - 1) xs)
