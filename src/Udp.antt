-- ===== src/Udp.antt =====
-- src/UDP.hpp and src/UDP.cpp. `T` stands for Boost's UDP socket; a Boost endpoint is an address and a
-- port, and `udp::Endpoint` a pointer to one.
pub mod Fetch
pub mod Handle
pub mod Closing
pub mod Connection
pub mod Ids
pub mod Trimmed
pub mod Queues
pub mod Naming
pub mod Popping
pub mod Delivery
pub mod Transfer
mod Examples
use icon.Prelude.{
  ℕ, zero, suc, ◌+◌, ◌-◌, ◌^◌, Bool, true, false, not, ◌&&◌, Option, none, some, List, [], ◌∷◌,
  ◌++◌, length, take, ltb, leb, ◌==◌, if◌then◌else◌,
}
use native.Mathlib.Decide.{ℕ_discrete}
use icon.Prelude.Map.{find, assign, erase}
use icon.NumberBuffer.{u64}
use icon.Message.{
  Message, message, Outcome, done, undefined, ◌>>=◌, create_optimal_buffer,
  try_read_message_from_buffer,
}
use icon.BiMap.{BiMap, insert, erase_a, erase_b, get_a, get_b, has_a, has_b, clear}
use icon.Endpoint.{Endpoint, no_endpoint, AddressApi, of_boost, to_boost}

abbrev pub udp_message_size_limit : ℕ
udp_message_size_limit = 1280

-- `endpointId` is keyed by what the pointers point to.
pub record Socket (T P : Type 0) : Type 0 where
  pub next_empty_id : ℕ
  pub sock : Option T
  pub received : List (ℕ × List Message)
  pub endpoint_id : BiMap (Option P) ℕ

module _ {T P : Type 0} where
  -- Socket(), where `spare` is what the members of the `BiMap` that are not initialised hold.
  unfoldable pub new_socket : Option P → ℕ → Socket T P
  new_socket spare spare_id = record {
    next_empty_id = 1;
    sock = none;
    received = [];
    endpoint_id = record { temp1 = spare; temp2 = spare_id; t1t2 = []; t2t1 = [] };
  }

  -- `Close`
  unfoldable pub close : Socket T P → Socket T P
  close s = record {
    next_empty_id = 1;
    sock = none;
    received = [];
    endpoint_id = clear s.endpoint_id;
  }

  -- The queue of an id, empty where the map has none.
  unfoldable pub queue : Socket T P → ℕ → List Message
  queue s id = elim (find ℕ_discrete s.received id) [ none ↦ [] | some q ↦ q ]

  -- `HasAnyMessage`: the loop returns in its first round.
  unfoldable pub has_any_message : Socket T P → Bool
  has_any_message s = elim s.received [
    | [] ↦ false
    | (_, q) ∷ _ ↦ elim q [ [] ↦ false | _ ∷ _ ↦ true ]
  ]

  -- `HasMessage`
  unfoldable pub has_message : Socket T P → ℕ → Bool
  has_message s id =
      if id == 0 then has_any_message s else elim (queue s id) [ [] ↦ false | _ ∷ _ ↦ true ]

  -- What stands behind the front of a queue goes back into the map, unless it is empty.
  unfoldable pub put_back : Socket T P → ℕ → List Message → Socket T P
  put_back s id [] = record s { received = erase ℕ_discrete s.received id }
  put_back s id (m ∷ ms) = record s { received = assign ℕ_discrete s.received id (m ∷ ms) }

  -- The branch `id == 0` of `InternalPopMessage`: the loop returns in its first round, since a queue
  -- that is not empty is at the front (`HasAnyMessage` looked there).
  unfoldable pub pop_any : Socket T P → Socket T P × Option (Message × ℕ)
  unfolding put_back
  pop_any s = elim s.received [
    | [] ↦ (s, none)
    | (id, q) ∷ _ ↦ elim q [ [] ↦ (s, none) | m ∷ ms ↦ (put_back s id ms, some (m, id)) ]
  ]

  -- The branch of an id
  unfoldable pub pop_of : Socket T P → ℕ → Socket T P × Option (Message × ℕ)
  unfolding put_back queue
  pop_of s id = elim (queue s id) [ [] ↦ (s, none) | m ∷ ms ↦ (put_back s id ms, some (m, id)) ]

  -- `InternalPopMessage` once the wait is over: the message and the id that it came from.
  unfoldable pub internal_pop_message : Socket T P → ℕ → Socket T P × Option (Message × ℕ)
  unfolding has_message pop_any pop_of
  internal_pop_message s id =
      if has_message s id then (if id == 0 then pop_any s else pop_of s id) else (s, none)

  -- `Send` to a `udp::Endpoint`: what goes out, and the answer. Boost reports `err`; a null pointer must
  -- not be sent to.
  unfoldable pub send : Socket T P → List ℕ → Option P → Bool → Outcome (Option (List ℕ × P) × Bool)
  send s buffer endpoint err =
      let ready : Bool = elim s.sock [
        | none ↦ false
        | some _ ↦ leb (length buffer) udp_message_size_limit
      ] in
      if ready
      then elim endpoint [ none ↦ undefined | some to' ↦ done (some (buffer, to'), not err) ]
      else done (none, false)

module _ {T P : Type 0} (peers : Discrete (Option P)) where
  -- `PopNextEmptyId`: `none` where `fuel` rounds of the loop find no id. It pre-increments in 64 bits,
  -- and skips 0 and the largest number.
  unfoldable pub pop_next_empty_id : (fuel : ℕ) → Socket T P → Option (Socket T P × ℕ)
  pop_next_empty_id zero s = none
  pop_next_empty_id (suc fuel) s =
      let id = u64 (s.next_empty_id + 1) in
      let rest = pop_next_empty_id fuel (record s { next_empty_id = id }) in
      let usable = not (id == 0) && not (id == 2 ^ 64 - 1) in
      if usable && not (has_b peers ℕ_discrete s.endpoint_id id)
      then some (record s { next_empty_id = id }, id)
      else rest

  -- `GetId` of an endpoint that is already Boost's
  unfoldable pub id_of : (fuel : ℕ) → Socket T P → Option P → Option (Socket T P × ℕ)
  unfolding pop_next_empty_id
  id_of fuel s end' = elim (find peers s.endpoint_id.t1t2 end') [
    | some id ↦ some (s, id)
    | none ↦ elim (pop_next_empty_id fuel s) [
      | none ↦ none
      | some (s', id) ↦
          some (record s' { endpoint_id = insert peers ℕ_discrete s'.endpoint_id end' id }, id)
    ]
  ]

  -- `Send` to an id
  unfoldable pub send_to_id : Socket T P → List ℕ → ℕ → Bool → Outcome (Option (List ℕ × P) × Bool)
  unfolding send
  send_to_id s buffer id err =
      if has_b peers ℕ_discrete s.endpoint_id id
      then send s buffer (get_a peers ℕ_discrete s.endpoint_id id) err
      else done (none, false)

  unfoldable pub send_message :
      Socket T P → Message → Option P → Bool → Outcome (Option (List ℕ × P) × Bool)
  unfolding send
  send_message s msg endpoint err = send s (create_optimal_buffer msg []) endpoint err

  unfoldable pub send_message_to_id :
      Socket T P → Message → ℕ → Bool → Outcome (Option (List ℕ × P) × Bool)
  unfolding send_message
  send_message_to_id s msg id err =
      if has_b peers ℕ_discrete s.endpoint_id id
      then send_message s msg (get_a peers ℕ_discrete s.endpoint_id id) err
      else done (none, false)

  -- `CloseEndpoint` of a `udp::Endpoint`, and of an id
  unfoldable pub close_endpoint : Socket T P → Option P → Socket T P
  close_endpoint s end' = record s {
    received = erase ℕ_discrete s.received (get_b peers ℕ_discrete s.endpoint_id end');
    endpoint_id = erase_a peers ℕ_discrete s.endpoint_id end';
  }

  unfoldable pub close_id : Socket T P → ℕ → Socket T P
  close_id s id = record s {
    received = erase ℕ_discrete s.received id;
    endpoint_id = erase_b peers ℕ_discrete s.endpoint_id id;
  }
