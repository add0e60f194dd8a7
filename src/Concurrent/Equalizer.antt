-- ===== src/Concurrent/Equalizer.antt =====
-- `single_pool_multi_thread_equalizer` of src/Concurrent.hpp. A pool is its stack. The table of sizes that
-- is written to a file is left out.
pub mod Sorting
pub mod Timing
pub mod Equalize
mod Examples
use icon.Prelude.{
  ℕ, zero, suc, ◌+◌, ◌-◌, ◌*◌, ◌/◌, ◌^◌, Bool, true, false, not, ◌&&◌, Option, none, some, List, [],
  ◌∷◌, ◌++◌, length, take, drop, replicate, ltb, leb, ◌==◌, if◌then◌else◌, bit_and,
}
use icon.NumberBuffer.{u64}
use icon.Concurrent.Memory.{
  Ptr, null, Program, Run, returns, running, fault, pure, continue, ◌>>=◌, ◌>>◌, new,
}
use icon.Concurrent.Linear.{Stack, stack, pop_all, push_counted, destroy}
use icon.Concurrent.SinglePool.{get, release, resize}

-- `capacity` is that of the vector; the two counters are the static variables of `get` and `release`.
pub record Equalizer : Type 0 where
  pub pools : List Stack
  pub capacity : ℕ
  pub gets : ℕ
  pub releases : ℕ

-- The inner loop of `sort`, from the back: the list, and whether nothing was swapped.
unfoldable pub sort_pass : List Stack → List Stack × Bool
sort_pass [] = ([], true)
sort_pass (x ∷ xs) =
    let (ys, end') = sort_pass xs in
    elim ys [
      | [] ↦ (x ∷ [], end')
      | y ∷ zs ↦ if ltb x.size y.size then (y ∷ (x ∷ zs), false) else (x ∷ (y ∷ zs), end')
    ]

-- The outer loop, for the rounds that are left
unfoldable pub sort_rounds : ℕ → List Stack → List Stack
unfolding sort_pass
sort_rounds zero xs = xs
sort_rounds (suc k) xs =
    let (ys, end') = sort_pass xs in let rest = sort_rounds k ys in if end' then ys else rest

-- `sort`
unfoldable pub sort : List Stack → List Stack
unfolding sort_rounds
sort xs = sort_rounds (length xs - 1) xs

-- `Cc & 0xffff == 0xffff`, where `==` binds first.
unfoldable pub is_time_to_sort : ℕ → Bool
is_time_to_sort count = not (bit_and count (if 0xffff == 0xffff then 1 else 0) == 0)

-- `resize` of the vector: where it has to grow beyond its capacity, to `grown`, the pools are copied, and
-- a copy is empty.
unfoldable pub resize_pools : (grown : ℕ) → ℕ → Equalizer → Equalizer
resize_pools grown n e =
    if leb n (length e.pools)
    then record e { pools = take n e.pools }
    else if leb n e.capacity
    then record e { pools = e.pools ++ replicate (n - length e.pools) stack }
    else record e { pools = replicate n stack; capacity = grown }

-- `pools.back()` changed by a program
unfoldable pub at_back :
    {V A : Type 0} → (Stack → Program V (A × Stack)) → List Stack → Program V (A × List Stack)
at_back f [] = λ _. fault
at_back f (x ∷ []) = do (a, x') ← f x; pure (a, x' ∷ [])
at_back f (x ∷ (y ∷ ys)) = do (a, ys') ← at_back f (y ∷ ys); pure (a, x ∷ ys')

-- `pools.back().size()`
unfoldable pub back_size : List Stack → ℕ
back_size [] = 0
back_size (x ∷ []) = x.size
back_size (x ∷ (y ∷ ys)) = back_size (y ∷ ys)

module _ {V : Type 0} where
  -- The loop of `get` over the pools
  unfoldable pub get_from : V → List Stack → Program V (Ptr × List Stack)
  get_from v [] = do p ← new v; pure (p, [])
  get_from v (x ∷ xs) =
      if ltb 0 x.size
      then (do (p, x') ← get v x; pure (p, x' ∷ xs))
      else (do (p, xs') ← get_from v xs; pure (p, x ∷ xs'))

  -- `get`
  unfoldable pub take_object : V → Equalizer → Program V (Ptr × Equalizer)
  unfolding get_from sort is_time_to_sort
  take_object v e =
      let count = u64 (e.gets + 1) in
      let ps = if is_time_to_sort count then sort e.pools else e.pools in
      do (p, ps') ← get_from v ps; pure (p, record e { pools = ps'; gets = count })

  -- `release`
  unfoldable pub give_back : (grown : ℕ) → Equalizer → Ptr → Program V Equalizer
  unfolding at_back sort is_time_to_sort resize_pools
  give_back grown e p =
      let e' = if length e.pools == 0 then resize_pools grown 1 e else e in
      let count = u64 (e.releases + 1) in
      let ps = if is_time_to_sort count then sort e'.pools else e'.pools in
      do
        (_, ps') ← at_back (λ x. do x' ← release x p; pure (p, x')) ps
        pure (record e' { pools = ps'; releases = count })
