-- ===== src/Udp/Trimmed.antt =====
-- The queues of `udp::Socket` that are kept in the map.
use icon.Prelude.{ℕ, ◌≢◌, List, [], ◌∷◌, All}
use native.Mathlib.Decide.{ℕ_discrete}
use icon.Prelude.Map.{assign, erase}
use icon.Message.{Message}
use icon.Udp.{Socket}
use mathlib.Core.Logic.{ite}

abbrev pub NonEmpty : List (ℕ × List Message) → Type 0
NonEmpty r = All (λ e. e.1 ≢ []) r

ite-NonEmpty :
    {X : Type 0} (d : Dec X) (xs ys : List (ℕ × List Message))
    → NonEmpty xs
    → NonEmpty ys
    → NonEmpty (ite d xs ys)
ite-NonEmpty (yes _) xs ys hx hy = hx
ite-NonEmpty (no _) xs ys hx hy = hy

pub erase-NonEmpty :
    (r : List (ℕ × List Message)) (id : ℕ) → NonEmpty r → NonEmpty (erase ℕ_discrete r id)
unfolding erase
erase-NonEmpty [] id h = h
erase-NonEmpty ((j, q) ∷ r) id h =
    let rest = erase-NonEmpty r id h.1 in
    ite-NonEmpty (ℕ_discrete j id) (erase ℕ_discrete r id) ((j, q) ∷ erase ℕ_discrete r id) rest
      (h.0, rest)

pub assign-NonEmpty :
    (r : List (ℕ × List Message)) (id : ℕ) (q : List Message)
    → q ≢ []
    → NonEmpty r
    → NonEmpty (assign ℕ_discrete r id q)
unfolding assign
assign-NonEmpty [] id q n h = (n, h)
assign-NonEmpty ((j, o) ∷ r) id q n h =
    ite-NonEmpty (ℕ_discrete j id) ((j, q) ∷ r) ((j, o) ∷ assign ℕ_discrete r id q) (n, h.1)
      (h.0, assign-NonEmpty r id q n h.1)

-- No queue in the map is empty.
abbrev pub IsTrimmed : {T P : Type 0} → Socket T P → Type 0
IsTrimmed s = NonEmpty s.received
