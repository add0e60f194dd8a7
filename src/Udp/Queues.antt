-- ===== src/Udp/Queues.antt =====
-- What `FetchData` does to the queues of `udp::Socket`.
use icon.Prelude.{
  ℕ, ◌+◌, ◌≡◌, ◌≢◌, refl, Option, none, some, List, [], ◌∷◌, ◌++◌, arith, Option-cases, inl, inr,
}
use native.Mathlib.Decide.{ℕ_discrete}
use icon.Prelude.Map.{find, assign, find-assign}
use icon.Message.{Message}
use icon.Udp.{Socket, queue}
use icon.Udp.Ids.{IsWellFormed, with_id, find-with_id}
use icon.Udp.Trimmed.{IsTrimmed, assign-NonEmpty}
use mathlib.Core.Logic.{ite}

-- The messages that wait from an endpoint.
unfoldable pub queue_of :
    {T P : Type 0} → Discrete (Option P) → Socket T P → Option P → List Message
queue_of peers s e = elim (find peers s.endpoint_id.t1t2 e) [ none ↦ [] | some id ↦ queue s id ]

-- `received[id]` with a message more
unfoldable pub enqueue : {T P : Type 0} → Socket T P → ℕ → Message → Socket T P
enqueue s id m = record s { received = assign ℕ_discrete s.received id (queue s id ++ (m ∷ [])) }

pub next-enqueue :
    {T P : Type 0} (s : Socket T P) (id : ℕ) (m : Message)
    → (enqueue s id m).next_empty_id ≡ s.next_empty_id
unfolding enqueue
next-enqueue s id m = refl

append_one-nil : (ms : List Message) (m : Message) → ms ++ (m ∷ []) ≢ []
append_one-nil [] m = λ e. cc
append_one-nil (n ∷ ms) m = λ e. cc

pub enqueue-IsTrimmed :
    {T P : Type 0} (s : Socket T P) (id : ℕ) (m : Message)
    → IsTrimmed s
    → IsTrimmed (enqueue s id m)
unfolding enqueue
enqueue-IsTrimmed s id m h =
    assign-NonEmpty s.received id (queue s id ++ (m ∷ [])) (append_one-nil (queue s id) m) h

module _ {T P : Type 0} (peers : Discrete (Option P)) where
  queue_of-unknown : (s : Socket T P) → IsWellFormed peers s → queue s (s.next_empty_id + 1) ≡ []
  unfolding queue
  queue_of-unknown s is = elim (Option-cases (find ℕ_discrete s.received (s.next_empty_id + 1))) [
    | inl h ↦ ground (arith, h)
    | inr (q, h) ↦ grind (arith, is.queued (s.next_empty_id + 1) q h)
  ]

  pub queue_of-with_id :
      (s : Socket T P) (e x : Option P)
      → IsWellFormed peers s
      → find peers s.endpoint_id.t1t2 e ≡ none
      → queue_of peers (with_id peers s e) x ≡ queue_of peers s x
  unfolding queue_of queue
  queue_of-with_id s e x is h = grind (arith, find-with_id peers s is e x, queue_of-unknown s is)

  queue-enqueue :
      (s : Socket T P) (id j : ℕ) (m : Message)
      → queue (enqueue s id m) j ≡ ite (ℕ_discrete id j) (queue s j ++ (m ∷ [])) (queue s j)
  unfolding queue enqueue
  queue-enqueue s id j m =
      ground (arith, find-assign ℕ_discrete s.received id j (queue s id ++ (m ∷ [])))

  module _ (s : Socket T P) (is : IsWellFormed peers s) (e : Option P) (id : ℕ)
      (has : find peers s.endpoint_id.t1t2 e ≡ some id) (m : Message) where
    pub enqueue-IsWellFormed : IsWellFormed peers (enqueue s id m)
    unfolding enqueue
    enqueue-IsWellFormed = record {
      bijection = is.bijection;
      bounded = is.bounded;
      queued = λ j q k. grind (
        arith,
        is.queued j q,
        is.bounded id e (is.bijection.there e id has),
        find-assign ℕ_discrete s.received id j (queue s id ++ (m ∷ [])),
      );
    }

    pub queue_of-enqueue :
        (x : Option P)
        → queue_of peers (enqueue s id m) x
          ≡ ite (peers e x) (queue_of peers s x ++ (m ∷ [])) (queue_of peers s x)
    unfolding queue_of
    queue_of-enqueue x = elim (Option-cases (find peers s.endpoint_id.t1t2 x)) [
      | inl h ↦ unfold enqueue in grind (arith, h, has)
      | inr (j, h) ↦
          unfold enqueue in
          (let same : (id ≡ j) → e ≡ x =
              λ w. grind (arith, is.bijection.there e id has, is.bijection.there x j h) in
            grind (arith, queue-enqueue s id j m, same))
    ]
