-- ===== src/BiMap.antt =====
-- `BiMap` of src/ASIO.hpp: two `std::map`s that are kept inverse to one another.
pub mod Bijection
mod Examples
use icon.Prelude.{Bool, true, false, Option, none, some, List, [], ◌∷◌, ◌≡◌}
use icon.Prelude.Map.{find, assign, erase}
use mathlib.Core.Option.{get_or}

pub record BiMap {ℓ} (A B : Type ℓ) : Type ℓ where
  pub temp1 : A
  pub temp2 : B
  pub t1t2 : List (A × B)
  pub t2t1 : List (B × A)

module _ {ℓ} {A B : Type ℓ} (da : Discrete A) (db : Discrete B) where
  -- `erase(const T1&)`
  unfoldable pub erase_a : BiMap A B → A → BiMap A B
  erase_a m a = elim (find da m.t1t2 a) [
    | none ↦ m
    | some b ↦ record m { t1t2 = erase da m.t1t2 a; t2t1 = erase db m.t2t1 b }
  ]

  -- `erase(const T2&)`
  unfoldable pub erase_b : BiMap A B → B → BiMap A B
  erase_b m b = elim (find db m.t2t1 b) [
    | none ↦ m
    | some a ↦ record m { t1t2 = erase da m.t1t2 a; t2t1 = erase db m.t2t1 b }
  ]

  unfoldable pub insert : BiMap A B → A → B → BiMap A B
  insert m a b =
      let freed = erase_b (erase_a m a) b in
      record freed { t1t2 = assign da freed.t1t2 a b; t2t1 = assign db freed.t2t1 b a }

  -- `getA` and `operator[](const T2&)`
  unfoldable pub get_a : BiMap A B → B → A
  get_a m b = elim (find db m.t2t1 b) [ none ↦ m.temp1 | some a ↦ a ]

  -- `getB` and `operator[](const T1&)`
  unfoldable pub get_b : BiMap A B → A → B
  get_b m a = elim (find da m.t1t2 a) [ none ↦ m.temp2 | some b ↦ b ]

  -- `has(const T2&)`
  unfoldable pub has_b : BiMap A B → B → Bool
  has_b m b = elim (find db m.t2t1 b) [ none ↦ false | some _ ↦ true ]

  -- `has(const T1&)`
  unfoldable pub has_a : BiMap A B → A → Bool
  has_a m a = elim (find da m.t1t2 a) [ none ↦ false | some _ ↦ true ]

-- `clear()` leaves the two spare values as they are.
unfoldable pub clear {ℓ} : {A B : Type ℓ} → BiMap A B → BiMap A B
clear m = record m { t1t2 = []; t2t1 = [] }
