-- ===== src/Prelude/Map.antt =====
-- `std::map` and `std::unordered_map`: entries in some order, a key found by its first entry. Two keys
-- are one where neither is less than the other, so equality of keys is decided by `d`.
use mathlib.Core.Path.{◌≡◌, refl}
use mathlib.Core.Logic.{◌≢◌, ite}
use mathlib.Core.List.{List, [], ◌∷◌}
use mathlib.Core.Option.{Option, none, some}
use native.Mathlib.Omega.{arith}

module _ {ℓ} {K V : Type ℓ} (d : Discrete K) where
  unfoldable pub find : List (K × V) → K → Option V
  find [] k = none
  find ((j, v) ∷ m) k = ite (d j k) (some v) (find m k)

  -- `m[k] = v`
  unfoldable pub assign : List (K × V) → K → V → List (K × V)
  assign [] k v = (k, v) ∷ []
  assign ((j, w) ∷ m) k v = ite (d j k) ((j, v) ∷ m) ((j, w) ∷ assign m k v)

  -- `m.erase(k)`
  unfoldable pub erase : List (K × V) → K → List (K × V)
  erase [] k = []
  erase ((j, w) ∷ m) k = let rest = erase m k in ite (d j k) rest ((j, w) ∷ rest)

  pub find-assign :
      (m : List (K × V)) (k j : K) (v : V) → find (assign m k v) j ≡ ite (d k j) (some v) (find m j)
  unfolding find assign
  find-assign [] k j v = refl
  find-assign ((i, w) ∷ m) k j v = ground (arith, find-assign m k j v)

  pub find-erase : (m : List (K × V)) (k j : K) → find (erase m k) j ≡ ite (d k j) none (find m j)
  unfolding find erase
  find-erase [] k j = ground arith
  find-erase ((i, w) ∷ m) k j = ground (arith, find-erase m k j)

  pub find-assign_self : (m : List (K × V)) (k : K) (v : V) → find (assign m k v) k ≡ some v
  find-assign_self m k v = ground (arith, find-assign m k k v)

  pub find-assign_ne :
      (m : List (K × V)) (k j : K) (v : V) → k ≢ j → find (assign m k v) j ≡ find m j
  find-assign_ne m k j v h = ground (arith, find-assign m k j v)

  pub find-erase_self : (m : List (K × V)) (k : K) → find (erase m k) k ≡ none
  find-erase_self m k = ground (arith, find-erase m k k)

  pub find-erase_ne : (m : List (K × V)) (k j : K) → k ≢ j → find (erase m k) j ≡ find m j
  find-erase_ne m k j h = ground (arith, find-erase m k j)
