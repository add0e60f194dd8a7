-- ===== src/Prelude/Lists.antt =====
-- Lists measured and indexed by native numbers, under the library's names.
use Prim.Native.Nat.{ℕ, zero, suc, ◌+◌, ◌-◌, ◌≤◌, ◌<◌}
use mathlib.Core.Path.{◌∙◌, sym, ◌≡◌, refl, ap}
use mathlib.Core.Logic.{◌⊎◌, inl, inr}
use mathlib.Core.List.{List, [], ◌∷◌, ◌++◌}
use native.Mathlib.Omega.{arith}

module _ {ℓ} {A : Type ℓ} where
  abbrev pub length : List A → ℕ
  length [] = 0
  length (x ∷ xs) = suc (length xs)

  -- A write out of bounds changes nothing.
  abbrev pub set : List A → ℕ → A → List A
  set [] i v = []
  set (x ∷ xs) zero v = v ∷ xs
  set (x ∷ xs) (suc i) v = x ∷ set xs i v

  abbrev pub take : ℕ → List A → List A
  take zero xs = []
  take (suc n) [] = []
  take (suc n) (x ∷ xs) = x ∷ take n xs

  abbrev pub drop : ℕ → List A → List A
  drop zero xs = xs
  drop (suc n) [] = []
  drop (suc n) (x ∷ xs) = drop n xs

  abbrev pub replicate : ℕ → A → List A
  replicate zero a = []
  replicate (suc n) a = a ∷ replicate n a

  abbrev pub All {κ} : (A → Type κ) → List A → Type κ
  All P [] = Unit {κ}
  All P (x ∷ xs) = P x × All P xs

module _ {ℓ} {A : Type ℓ} where
  pub length-append : (xs ys : List A) → length (xs ++ ys) ≡ length xs + length ys
  length-append [] ys = omega arith
  length-append (x ∷ xs) ys = omega (arith, length-append xs ys)

  pub length-replicate : (n : ℕ) (a : A) → length (replicate n a) ≡ n
  length-replicate zero a = refl
  length-replicate (suc n) a = ap suc (length-replicate n a)

  pub take-append_length : (xs ys : List A) (n : ℕ) → n ≡ length xs → take n (xs ++ ys) ≡ xs
  take-append_length [] ys zero h = refl
  take-append_length [] ys (suc n) h = absurd (omega arith)
  take-append_length (x ∷ xs) ys zero h = absurd (omega arith)
  take-append_length (x ∷ xs) ys (suc n) h = ap (◌∷◌ x) (take-append_length xs ys n (omega arith))

  pub drop-append_length : (xs ys : List A) (n : ℕ) → n ≡ length xs → drop n (xs ++ ys) ≡ ys
  drop-append_length [] ys zero h = refl
  drop-append_length [] ys (suc n) h = absurd (omega arith)
  drop-append_length (x ∷ xs) ys zero h = absurd (omega arith)
  drop-append_length (x ∷ xs) ys (suc n) h = drop-append_length xs ys n (omega arith)

  pub take-all : (xs : List A) (n : ℕ) → length xs ≤ n → take n xs ≡ xs
  take-all [] zero h = refl
  take-all [] (suc n) h = refl
  take-all (x ∷ xs) zero h = absurd (omega arith)
  take-all (x ∷ xs) (suc n) h = ap (◌∷◌ x) (take-all xs n (omega arith))

  pub length-take : (xs : List A) (n : ℕ) → n ≤ length xs → length (take n xs) ≡ n
  length-take [] zero h = refl
  length-take [] (suc n) h = absurd (omega arith)
  length-take (x ∷ xs) zero h = refl
  length-take (x ∷ xs) (suc n) h = ap suc (length-take xs n (omega arith))

  pub length-take-le : (xs : List A) (n : ℕ) → length (take n xs) ≤ n
  length-take-le [] zero = omega arith
  length-take-le [] (suc n) = omega arith
  length-take-le (x ∷ xs) zero = omega arith
  length-take-le (x ∷ xs) (suc n) = omega (arith, length-take-le xs n)

  pub take-append_left : (xs ys : List A) (n : ℕ) → n ≤ length xs → take n (xs ++ ys) ≡ take n xs
  take-append_left [] ys zero h = refl
  take-append_left [] ys (suc n) h = absurd (omega arith)
  take-append_left (x ∷ xs) ys zero h = refl
  take-append_left (x ∷ xs) ys (suc n) h = ap (◌∷◌ x) (take-append_left xs ys n (omega arith))

  pub All-append {κ} : (P : A → Type κ) (xs ys : List A) → All P xs → All P ys → All P (xs ++ ys)
  All-append P [] ys p q = q
  All-append P (x ∷ xs) ys (h, p) q = (h, All-append P xs ys p q)

  pub take-append_past :
      (xs ys : List A) (n : ℕ) → length xs ≤ n → take n (xs ++ ys) ≡ xs ++ take (n - length xs) ys
  take-append_past [] ys n h = ap (λ (m : ℕ). take m ys) (omega arith)
  take-append_past (x ∷ xs) ys zero h = absurd (omega arith)
  take-append_past (x ∷ xs) ys (suc n) h =
      let e : suc n - suc (length xs) ≡ n - length xs = omega arith in
      rw e (ap (◌∷◌ x) (take-append_past xs ys n (omega arith)))

  pub length-take_le_length : (xs : List A) (n : ℕ) → length (take n xs) ≤ length xs
  length-take_le_length [] zero = omega arith
  length-take_le_length [] (suc n) = omega arith
  length-take_le_length (x ∷ xs) zero = omega arith
  length-take_le_length (x ∷ xs) (suc n) = omega (arith, length-take_le_length xs n)

  pub All-take {κ} : (P : A → Type κ) (xs : List A) (n : ℕ) → All P xs → All P (take n xs)
  All-take P [] zero h = h
  All-take P [] (suc n) h = h
  All-take P (x ∷ xs) zero h = tt
  All-take P (x ∷ xs) (suc n) (h, hs) = (h, All-take P xs n hs)

  pub split_at :
      (xs : List A) (j : ℕ)
      → j < length xs
      → (x : A) × (back : List A) × (xs ≡ take j xs ++ (x ∷ back))
  split_at [] j h = absurd (omega arith)
  split_at (x ∷ xs) zero h = (x, xs, refl)
  split_at (x ∷ xs) (suc j) h =
      let (y, back, e) = split_at xs j (omega arith) in (y, back, ap (◌∷◌ x) e)

  pub append_inj_length :
      (xs ys : List A) (back more : List A)
      → length xs ≡ length ys
      → xs ++ back ≡ ys ++ more
      → (xs ≡ ys) × (back ≡ more)
  append_inj_length [] [] back more h e = (refl, e)
  append_inj_length [] (y ∷ ys) back more h e = absurd (omega arith)
  append_inj_length (x ∷ xs) [] back more h e = absurd (omega arith)
  append_inj_length (x ∷ xs) (y ∷ ys) back more h e =
      let (p, q) = append_inj_length xs ys back more (omega arith) (cc) in (cc, q)

  pub drop-all : (xs : List A) → drop (length xs) xs ≡ []
  drop-all [] = refl
  drop-all (x ∷ xs) = drop-all xs

  pub take-drop : (n : ℕ) (xs : List A) → take n xs ++ drop n xs ≡ xs
  take-drop zero xs = refl
  take-drop (suc n) [] = refl
  take-drop (suc n) (x ∷ xs) = ap (◌∷◌ x) (take-drop n xs)

  drop-nil : (n : ℕ) → drop {A = A} n [] ≡ []
  drop-nil zero = refl
  drop-nil (suc n) = refl

  pub length-drop : (n : ℕ) (xs : List A) → length (drop n xs) ≡ length xs - n
  length-drop zero xs = omega arith
  length-drop (suc n) [] = omega arith
  length-drop (suc n) (x ∷ xs) = length-drop n xs ∙ omega arith

  pub drop-drop : (n i : ℕ) (xs : List A) → drop n (drop i xs) ≡ drop (i + n) xs
  drop-drop n zero xs = ap (λ (k : ℕ). drop k xs) (omega arith)
  drop-drop n (suc i) [] = drop-nil n ∙ sym (drop-nil (suc i + n))
  drop-drop n (suc i) (x ∷ xs) =
      let e : suc i + n ≡ suc (i + n) = omega arith in rw e (drop-drop n i xs)

  take-nil : (n : ℕ) → take {A = A} n [] ≡ []
  take-nil zero = refl
  take-nil (suc n) = refl

  pub take-add : (xs : List A) (m n : ℕ) → take (m + n) xs ≡ take m xs ++ take n (drop m xs)
  take-add xs zero n = ap (λ (k : ℕ). take k xs) (omega arith)
  take-add [] (suc m) n = let e : suc m + n ≡ suc (m + n) = omega arith in rw (e, take-nil n)
  take-add (x ∷ xs) (suc m) n =
      let e : suc m + n ≡ suc (m + n) = omega arith in rw e (ap (◌∷◌ x) (take-add xs m n))

  pub append_cancel : (xs : List A) {ys zs : List A} → xs ++ ys ≡ xs ++ zs → ys ≡ zs
  append_cancel [] e = e
  append_cancel (x ∷ xs) e = append_cancel xs (cc)

  pub List-cases : (xs : List A) → (xs ≡ []) ⊎ ((x : A) × (rest : List A) × (xs ≡ x ∷ rest))
  List-cases [] = inl refl
  List-cases (x ∷ rest) = inr (x, rest, refl)
