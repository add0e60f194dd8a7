-- ===== src/Concurrent/Ring.antt =====
-- `spmc_queue` of src/Concurrent.hpp where no other thread is at work: a ring of nodes, of which those from
-- `first` up to `last` hold the values. It grows by blocks of nodes. An address counts nodes, so that
-- `&block[i]` is `block + i`, and the values of a new block, which are not set, are `v`.
pub mod Chains
pub mod Blocks
pub mod Growth
pub mod Holds
pub mod Steps
pub mod Fifo
pub mod Threads
mod Examples
use icon.Prelude.{
  ℕ, zero, suc, ◌+◌, ◌-◌, ◌*◌, ◌/◌, ◌%◌, ◌^◌, Bool, true, false, Option, none, some, List, [], ◌∷◌,
  ◌++◌, ◌==◌, ◌&&◌, ltb, leb, if◌then◌else◌,
}
use icon.NumberBuffer.{u64}
use icon.Concurrent.Memory.{
  Ptr, Node, Heap, put, Program, Run, returns, fault, no_memory, running, pure, continue, ◌>>=◌,
  ◌>>◌, get_next, set_next,
}

-- `blocks` is `allocated_blocks`, with the sizes that `delete[]` knows.
pub record Queue : Type 0 where
  pub first : Ptr
  pub last : Ptr
  pub blocks : List (Ptr × ℕ)
  pub batch : ℕ
  pub allocated : ℕ

-- The cells with a block of `size` nodes at `b`
unfoldable pub with_block :
    {V : Type 0} → (Ptr → Option (Node V)) → (b size : ℕ) → V → Ptr → Option (Node V)
with_block cell b size v a =
    if leb b a && ltb a (b + size) then some (record { value = v; next = 0 }) else cell a

-- The cells without it
unfoldable pub without_block :
    {V : Type 0} → (Ptr → Option (Node V)) → (b size : ℕ) → Ptr → Option (Node V)
without_block cell b size a = if leb b a && ltb a (b + size) then none else cell a

module _ {V : Type 0} where
  -- `new node_ptr[size]`
  unfoldable pub new_block : (size : ℕ) → V → Program V Ptr
  unfolding with_block
  new_block size v h = elim h.supply [
    | [] ↦ no_memory
    | b ∷ bs ↦ returns b (record { cell = with_block h.cell b size v; supply = bs })
  ]

  -- `delete[]`
  unfoldable pub delete_block : Ptr × ℕ → Program V (Unit {0})
  unfolding without_block
  delete_block (b, size) h = returns tt (record h { cell = without_block h.cell b size })

  -- `p->value`
  unfoldable pub read_value : Ptr → Program V V
  read_value p h = elim (h.cell p) [ none ↦ fault | some n ↦ returns n.value h ]

  -- `p->value = v`
  unfoldable pub write_value : Ptr → V → Program V (Unit {0})
  write_value p v h = elim (h.cell p) [
    | none ↦ fault
    | some n ↦ returns tt (record h { cell = put h.cell p (some (record n { value = v })) })
  ]

  -- The loop of `create_new_empty_cycle`, from `i` on
  unfoldable pub link_from : (left : ℕ) → (i size : ℕ) → Ptr → Program V (Unit {0})
  link_from zero i size block = pure tt
  link_from (suc left) i size block = do
    set_next (block + i) (block + (i + 1) % size)
    link_from left (i + 1) size block

  -- `create_new_empty_cycle`: the block and the object, in which `allocated` has grown
  unfoldable pub create_new_empty_cycle : V → Queue → Program V (Ptr × Queue)
  unfolding new_block link_from
  create_new_empty_cycle v q = do
    block ← new_block q.batch v
    link_from q.batch 0 q.batch block
    pure (block, record q { allocated = u64 (q.allocated + q.batch) })

  -- `__init_empty`, on a queue whose list of blocks is empty
  unfoldable pub init_empty : V → (allocation_batch : ℕ) → Program V Queue
  unfolding create_new_empty_cycle
  init_empty v allocation_batch = do
    (block, q) ←
        create_new_empty_cycle v
          (record { first = 0; last = 0; blocks = []; batch = allocation_batch; allocated = 0 })
    pure (record q { first = block; last = block; blocks = (block, allocation_batch) ∷ [] })

  -- What `push` does first: where the ring is full, a new block goes in between the last node and the first.
  unfoldable pub grow : V → Queue → Program V Queue
  unfolding create_new_empty_cycle
  grow v q = do
    next ← get_next q.last
    elim (next == q.first) [
      | false ↦ pure q
      | true ↦ do
        (block, q') ← create_new_empty_cycle v q
        set_next (block + u64 (q.batch + 2 ^ 64 - 1)) q.first
        set_next q.last block
        pure q'
    ]

  -- `push`
  unfoldable pub push : V → Queue → V → Program V Queue
  unfolding grow write_value
  push v q value = do
    q' ← grow v q
    write_value q.last value
    next ← get_next q.last
    pure (record q' { last = next })

  -- `pop`: nothing, or the value
  unfoldable pub pop : (rounds : ℕ) → Queue → Program V (Option V × Queue)
  unfolding read_value
  pop zero q = λ _. running
  pop (suc k) q = if q.first == q.last then pure (none, q) else do
    value ← read_value q.first
    next ← get_next q.first
    elim (q.first == q.first) [
      | true ↦ pure (some value, record q { first = next })
      | false ↦ pop k q
    ]

  -- `pop_unsafe`
  unfoldable pub pop_unsafe : Queue → Program V (Option V × Queue)
  unfolding read_value
  pop_unsafe q = if q.first == q.last then pure (none, q) else do
    value ← read_value q.first
    next ← get_next q.first
    pure (some value, record q { first = next })

  -- The loop that frees, of ~spmc_queue() and `clear_dealloc_single_threaded_unsafe`
  unfoldable pub free_blocks : List (Ptr × ℕ) → Program V (Unit {0})
  unfolding delete_block
  free_blocks [] = pure tt
  free_blocks (b ∷ bs) = do delete_block b; free_blocks bs

  -- `clear_dealloc_single_threaded_unsafe`
  unfoldable pub clear_dealloc : V → Queue → Program V Queue
  unfolding free_blocks init_empty
  clear_dealloc v q = do free_blocks q.blocks; init_empty v q.batch

-- `set_allocation_batch`
unfoldable pub set_allocation_batch : Queue → ℕ → Queue
set_allocation_batch q n =
    let at_least = if ltb n 16 then 16 else n in record q { batch = u64 (at_least + 15) / 16 * 16 }
