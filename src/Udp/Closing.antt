-- ===== src/Udp/Closing.antt =====
-- `CloseEndpoint` of an id, which ends a `Connection` of src/UDP.cpp.
use icon.Prelude.{ℕ, ◌≡◌, Option, [], arith}
use native.Mathlib.Decide.{ℕ_discrete}
use icon.Prelude.Map.{find, find-erase}
use icon.BiMap.Bijection.{erase-IsBijection, without}
use icon.Udp.{Socket, queue, close_id}
use icon.Udp.Ids.{IsWellFormed}
use icon.Udp.Trimmed.{IsTrimmed, erase-NonEmpty}
use mathlib.Core.Logic.{ite}

module _ {T P : Type 0} (peers : Discrete (Option P)) where
  queue-close_id :
      (s : Socket T P) (id j : ℕ)
      → queue (close_id peers s id) j ≡ ite (ℕ_discrete id j) [] (queue s j)
  unfolding queue close_id
  queue-close_id s id j = ground (arith, find-erase ℕ_discrete s.received id j)

  -- Where the ids are kept well and no empty queue: closing an id keeps them so, takes the id from the
  -- endpoint that has it and from no other, and empties its queue and no other.
  pub close_id-IsWellFormed :
      (s : Socket T P) (id : ℕ)
      → IsWellFormed peers s
      → IsTrimmed s
      → IsWellFormed peers (close_id peers s id)
        × IsTrimmed (close_id peers s id)
        × ((x : Option P)
            → find peers (close_id peers s id).endpoint_id.t1t2 x
              ≡ without ℕ_discrete id (find peers s.endpoint_id.t1t2 x))
        × ((j : ℕ) → queue (close_id peers s id) j ≡ ite (ℕ_discrete id j) [] (queue s j))
  unfolding close_id
  close_id-IsWellFormed s id is trim =
      let (_, _, _, kept, back, there) =
        erase-IsBijection peers ℕ_discrete s.endpoint_id s.endpoint_id.temp1 id is.bijection in
      (
        record {
          bijection = kept;
          bounded = λ j e h. grind (arith, back j, is.bounded j e);
          queued = λ j q h. grind (arith, find-erase ℕ_discrete s.received id j, is.queued j q);
        },
        erase-NonEmpty s.received id trim,
        there,
        queue-close_id s id,
      )
