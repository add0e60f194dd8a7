-- ===== src/Endpoint/Order.antt =====
-- `==` and `<` of `Endpoint`, src/ASIO.cpp: an `std::map` may be keyed by endpoints.
use icon.Prelude.{
  ℕ, ◌≡◌, refl, ap₂, subst, ◌⊎◌, inl, inr, true, false, not, ◌&&◌, ◌||◌, List, [], ◌∷◌, arith,
}
use mathlib.Core.Logic.{◌↔◌}
use icon.Endpoint.{Endpoint, text_eq, text_lt, equals, less}

text_eq-eq : (s t : List ℕ) → text_eq s t ≡ true → s ≡ t
unfolding text_eq
text_eq-eq [] [] h = refl
text_eq-eq [] (b ∷ t) h = cc
text_eq-eq (a ∷ s) [] h = cc
text_eq-eq (a ∷ s) (b ∷ t) h = grind (arith, text_eq-eq s t)

text_eq_refl : (s : List ℕ) → text_eq s s ≡ true
unfolding text_eq
text_eq_refl [] = refl
text_eq_refl (a ∷ s) = grind (arith, text_eq_refl s)

text_lt_irrefl : (s : List ℕ) → text_lt s s ≡ false
unfolding text_lt
text_lt_irrefl [] = refl
text_lt_irrefl (a ∷ s) = grind (arith, text_lt_irrefl s)

text_lt_connex : (s t : List ℕ) → (text_lt s t ≡ true) ⊎ (text_eq s t ≡ true) ⊎ (text_lt t s ≡ true)
unfolding text_lt text_eq
text_lt_connex [] [] = inr (inl refl)
text_lt_connex [] (b ∷ t) = inl refl
text_lt_connex (a ∷ s) [] = inr (inr refl)
text_lt_connex (a ∷ s) (b ∷ t) = grind (arith, text_lt_connex s t)

text_lt_trans : (s t u : List ℕ) → text_lt s t ≡ true → text_lt t u ≡ true → text_lt s u ≡ true
unfolding text_lt
text_lt_trans [] [] u h k = k
text_lt_trans [] (b ∷ t) [] h k = k
text_lt_trans [] (b ∷ t) (c ∷ u) h k = refl
text_lt_trans (a ∷ s) [] u h k = cc
text_lt_trans (a ∷ s) (b ∷ t) [] h k = k
text_lt_trans (a ∷ s) (b ∷ t) (c ∷ u) h k = grind (arith, text_lt_trans s t u)

-- `==` says true exactly for equal endpoints.
equals-eq : (a b : Endpoint) → (equals a b ≡ true) ↔ (a ≡ b)
unfolding equals
equals-eq a b = (
  λ h.
      let e : a.ip ≡ b.ip = text_eq-eq a.ip b.ip (grind arith) in
      let p : a.port ≡ b.port = grind arith in ap₂ (λ ip port. record { ip = ip; port = port }) e p,
  λ e. subst (λ c. equals a c ≡ true) e (grind (arith, text_eq_refl a.ip)),
)

less_irrefl : (a : Endpoint) → less a a ≡ false
unfolding less
less_irrefl a = grind (arith, text_lt_irrefl a.ip)

text_eq_sym : (s t : List ℕ) → text_eq s t ≡ true → text_eq t s ≡ true
text_eq_sym s t h = subst (λ u. text_eq u s ≡ true) (text_eq-eq s t h) (text_eq_refl s)

cases : (a b : Endpoint) → (less a b ≡ true) ⊎ (equals a b ≡ true) ⊎ (less b a ≡ true)
unfolding less equals
cases a b = grind (arith, text_lt_connex a.ip b.ip, text_eq_sym a.ip b.ip)

less_connex : (a b : Endpoint) → (less a b ≡ true) ⊎ (a ≡ b) ⊎ (less b a ≡ true)
less_connex a b = elim (cases a b) [
  | inl h ↦ inl h
  | inr (inl h) ↦ inr (inl ((equals-eq a b).0 h))
  | inr (inr h) ↦ inr (inr h)
]

less_trans : (a b c : Endpoint) → not (less a b && less b c) || less a c ≡ true
unfolding less
less_trans a b c =
    grind (arith, text_lt_trans a.ip b.ip c.ip, text_eq-eq a.ip b.ip, text_eq-eq b.ip c.ip)

-- `<` of endpoints is a strict total order, and `==` is equality: no endpoint is less than itself, of two
-- endpoints one is less than the other or they are equal, `<` can be chained, and `==` says true exactly
-- for equal endpoints.
pub less-StrictTotal :
    (a b c : Endpoint)
    → (less a a ≡ false)
      × ((less a b ≡ true) ⊎ (a ≡ b) ⊎ (less b a ≡ true))
      × (not (less a b && less b c) || less a c ≡ true)
      × ((equals a b ≡ true) ↔ (a ≡ b))
less-StrictTotal a b c = (less_irrefl a, less_connex a b, less_trans a b c, equals-eq a b)
