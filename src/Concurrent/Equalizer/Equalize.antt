-- ===== src/Concurrent/Equalizer/Equalize.antt =====
-- `equalize` and `get_pools` of `single_pool_multi_thread_equalizer` in src/Concurrent.hpp. `rounds` bounds
-- each of the loops that move objects; `v` is what `new T` makes.
use icon.Prelude.{
  ℕ, zero, suc, ◌+◌, ◌*◌, ◌/◌, true, false, ◌&&◌, ◌||◌, List, [], ◌∷◌, ◌++◌, length, take, drop,
  ltb, leb, ◌==◌, if◌then◌else◌,
}
use icon.NumberBuffer.{u64}
use icon.Concurrent.Memory.{Ptr, Program, fault, running, pure, ◌>>=◌, ◌>>◌}
use icon.Concurrent.Linear.{Stack, stack, pop_all, push_counted, destroy}
use icon.Concurrent.SinglePool.{get, release, resize}
use icon.Concurrent.Equalizer.{Equalizer, sort, resize_pools, at_back, back_size}

unfoldable pub front_size : List Stack → ℕ
front_size [] = 0
front_size (x ∷ xs) = x.size

-- The pools whose destructors `pools.resize(n)` runs: those beyond `n`, or, where the pools are copied, all
unfoldable pub given_up : ℕ → Equalizer → List Stack
given_up n e =
    if leb n (length e.pools) then drop n e.pools else if leb n e.capacity then [] else e.pools

-- The sum of the sizes
unfoldable pub sum_sizes : List Stack → ℕ
sum_sizes [] = 0
sum_sizes (x ∷ xs) = u64 (x.size + sum_sizes xs)

-- What `amount_per_thread` becomes
unfoldable pub amount_for : (sum_threads amount : ℕ) → ℕ
amount_for sum_threads amount =
    if ltb sum_threads (u64 (amount * 3)) && ltb amount sum_threads
    then sum_threads
    else if leb (u64 (amount * 3)) sum_threads
    then sum_threads
    else amount

module _ {V : Type 0} where
  -- The destructors of pools
  unfoldable pub destroy_all : (rounds : ℕ) → List Stack → Program V (Unit {0})
  unfolding destroy
  destroy_all k [] = pure tt
  destroy_all k (x ∷ xs) = do destroy k x.first; destroy_all k xs

  -- The loop over the pools beyond the threads: the pools that are left and the buffer
  unfoldable pub collect : (rounds : ℕ) → List Stack → Stack → Program V (List Stack × Stack)
  unfolding pop_all push_counted
  collect k [] buffer = pure ([], buffer)
  collect k (x ∷ xs) buffer = do
    buffer' ← push_counted k buffer (pop_all x).0 x.size
    (xs', buffer'') ← collect k xs buffer'
    pure ((pop_all x).1 ∷ xs', buffer'')

  unfoldable pub get_front : V → List Stack → Program V (Ptr × List Stack)
  unfolding get
  get_front v [] = λ _. fault
  get_front v (x ∷ xs) = do (p, x') ← get v x; pure (p, x' ∷ xs)

  -- The inner loop that moves objects from the first pool to the last
  unfoldable pub balance : (rounds : ℕ) → V → (amount : ℕ) → List Stack → Program V (List Stack)
  unfolding get_front at_back back_size front_size release
  balance zero v amount xs = λ _. running
  balance (suc k) v amount xs = elim (ltb amount (front_size xs) && ltb (back_size xs) amount) [
    | false ↦ pure xs
    | true ↦ do
      (p, xs') ← get_front v xs
      (_, xs'') ← at_back (λ x. do x' ← release x p; pure (p, x')) xs'
      balance k v amount xs''
  ]

  -- The loop around it, for the rounds that are left
  unfoldable pub balance_all :
      (rounds : ℕ) → (left : ℕ) → V → (amount : ℕ) → List Stack → Program V (List Stack)
  unfolding balance sort
  balance_all k zero v amount xs = pure xs
  balance_all k (suc left) v amount xs = do
    xs' ← balance k v amount (sort xs)
    balance_all k left v amount xs'

  -- The loop that fills one pool from the buffer, and that over the pools
  unfoldable pub fill : (rounds : ℕ) → V → (amount : ℕ) → Stack → Stack → Program V (Stack × Stack)
  unfolding get release
  fill zero v amount x buffer = λ _. running
  fill (suc k) v amount x buffer = elim (ltb x.size amount) [
    | false ↦ pure (x, buffer)
    | true ↦ do (p, buffer') ← get v buffer; x' ← release x p; fill k v amount x' buffer'
  ]

  unfoldable pub fill_all :
      (rounds : ℕ) → V → (amount : ℕ) → List Stack → Stack → Program V (List Stack × Stack)
  unfolding fill
  fill_all k v amount [] buffer = pure ([], buffer)
  fill_all k v amount (x ∷ xs) buffer = do
    (x', buffer') ← fill k v amount x buffer
    (xs', buffer'') ← fill_all k v amount xs buffer'
    pure (x' ∷ xs', buffer'')

  unfoldable pub resize_all : (rounds : ℕ) → V → (amount : ℕ) → List Stack → Program V (List Stack)
  unfolding resize
  resize_all k v amount [] = pure []
  resize_all k v amount (x ∷ xs) = do
    x' ← resize k amount v x
    xs' ← resize_all k v amount xs
    pure (x' ∷ xs')

  -- `equalize`; the buffer is destroyed at its end.
  unfoldable pub equalize :
      (rounds grown : ℕ) → V → (threads amount_per_thread : ℕ) → Equalizer → Program V Equalizer
  unfolding sort collect sum_sizes amount_for resize_pools balance_all fill_all resize_all destroy
      destroy_all given_up
  equalize k grown v threads amount_per_thread e = elim (threads == 0 || amount_per_thread == 0) [
    | true ↦ do destroy_all k e.pools; pure (record e { pools = [] })
    | false ↦
        let sorted = sort e.pools in
        do
          (emptied, buffer) ← collect k (drop threads sorted) stack
          let kept = take threads sorted ++ emptied
          let amount = amount_for (sum_sizes kept / threads) amount_per_thread
          let e' = resize_pools grown threads (record e { pools = kept })
          destroy_all k (given_up threads (record e { pools = kept }))
          balanced ← balance_all k (u64 (threads * threads)) v amount e'.pools
          (filled, buffer') ← fill_all k v amount balanced buffer
          resized ← resize_all k v amount filled
          destroy k buffer'.first
          pure (record e' { pools = resized })
  ]

  -- `get_pools`, without the line that it writes to a file: the pools and the first of them
  unfoldable pub get_pools :
      (rounds grown : ℕ)
      → V
      → (threads amount_per_thread : ℕ) → Equalizer
      → Program V (Stack × Equalizer)
  unfolding equalize
  get_pools k grown v threads amount e = do
    e' ← equalize k grown v threads amount e
    elim e'.pools [ [] ↦ (λ _. fault) | x ∷ xs ↦ pure (x, e') ]
