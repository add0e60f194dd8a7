-- ===== src/Concurrent/Equalizer/Examples.antt =====
-- Runs of `sort` and `equalize` of `single_pool_multi_thread_equalizer` of src/Concurrent.hpp.
use icon.Prelude.{ℕ, ◌-◌, ◌≡◌, refl, none, some, List, [], ◌∷◌, leb, ◌&&◌, if◌then◌else◌}
use icon.Concurrent.Memory.{Heap, get_next, set_next, put, Run, returns, fault, no_memory, running}
use mathlib.Core.List.{Perm}
use icon.Concurrent.Linear.{Stack, stack}
use icon.Concurrent.Equalizer.Equalize.{equalize}
use icon.Concurrent.Equalizer.{Equalizer, sort, sort_pass, sort_rounds}
use icon.Concurrent.Equalizer.Sorting.{IsDescending, sort-IsDescending}

abbrev pool : ℕ → ℕ → Stack
pool n p = record { size = n; first = p }

abbrev pools : List Stack
pools = pool 1 11 ∷ pool 3 13 ∷ pool 2 12 ∷ []

sort-IsDescending_example : IsDescending (sort pools) × Perm (sort pools) pools
sort-IsDescending_example = sort-IsDescending pools

sorted : sort pools ≡ pool 3 13 ∷ pool 2 12 ∷ pool 1 11 ∷ []
unfolding sort sort_rounds sort_pass
sorted = refl

-- `n` objects at the addresses from `n` down to 1, each linked to the next
abbrev chain : ℕ → Heap ℕ
chain n = record {
  cell = λ a. if leb 1 a && leb a n then some (record { value = a; next = a - 1 }) else none;
  supply = 20 ∷ 21 ∷ [];
}

abbrev sizes : Run ℕ Equalizer → List ℕ
sizes (returns e h) = map_sizes e.pools
  where
    map_sizes : List Stack → List ℕ
    map_sizes [] = []
    map_sizes (x ∷ xs) = x.size ∷ map_sizes xs
sizes fault = []
sizes no_memory = []
sizes running = []

abbrev one_full : Equalizer
one_full = record { pools = pool 4 4 ∷ pool 0 0 ∷ []; capacity = 2; gets = 0; releases = 0 }

-- Four objects in one of two pools are shared out.
equalized : sizes (equalize 6 2 0 2 1 one_full (chain 4)) ≡ 2 ∷ 2 ∷ []
unfolding equalize get_next set_next put stack
equalized = refl
