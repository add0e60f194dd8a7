-- ===== src/Udp/Popping.antt =====
-- What `InternalPopMessage` of src/UDP.cpp takes out of the queues.
use icon.Prelude.{
  ℕ, zero, suc, ◌∙◌, ◌≡◌, ◌⊎◌, inl, inr, refl, none, some, List, [], ◌∷◌, arith, List-cases,
}
use native.Mathlib.Decide.{ℕ_discrete}
use icon.Prelude.Map.{find, find-assign, find-erase}
use icon.Message.{Message}
use icon.Udp.{
  Socket, queue, put_back, has_any_message, has_message, pop_any, pop_of, internal_pop_message,
}
use icon.Udp.Trimmed.{NonEmpty, IsTrimmed, erase-NonEmpty, assign-NonEmpty}
use mathlib.Core.Logic.{ite}

-- The ids that a given id stands for
unfoldable pub asked : ℕ → ℕ → ℕ
asked zero j = j
asked (suc n) j = suc n

module _ {T P : Type 0} where
  queue-put_back :
      (s : Socket T P) (id j : ℕ) (q : List Message)
      → queue (put_back s id q) j ≡ ite (ℕ_discrete id j) q (queue s j)
  unfolding queue put_back
  queue-put_back s id j [] = ground (arith, find-erase ℕ_discrete s.received id j)
  queue-put_back s id j (m ∷ ms) = ground (arith, find-assign ℕ_discrete s.received id j (m ∷ ms))

  put_back-IsTrimmed :
      (s : Socket T P) (id : ℕ) (q : List Message) → IsTrimmed s → IsTrimmed (put_back s id q)
  unfolding put_back
  put_back-IsTrimmed s id [] h = erase-NonEmpty s.received id h
  put_back-IsTrimmed s id (m ∷ ms) h = assign-NonEmpty s.received id (m ∷ ms) (λ e. cc) h

  pop_of-front :
      (s : Socket T P) (id : ℕ)
      → (queue s id ≡ []) × (pop_of s id ≡ (s, none))
        ⊎ ((m : Message) × (ms : List Message) × (queue s id ≡ m ∷ ms)
            × (pop_of s id ≡ (put_back s id ms, some (m, id))))
  unfolding pop_of
  pop_of-front s id = elim (List-cases (queue s id)) [
    | inl h ↦ inl (h, unfold queue in ground (arith, h))
    | inr (m, ms, h) ↦ inr (m, ms, h, unfold queue in ground (arith, h))
  ]

  -- Either no message waits, and none is given, or one of an id does, and it is given.
  abbrev pub PopsAny : Socket T P → Type 0
  PopsAny s =
      ((id : ℕ) → queue s id ≡ []) × (internal_pop_message s 0 ≡ (s, none))
      ⊎ ((id : ℕ) × (m : Message) × (ms : List Message) × (queue s id ≡ m ∷ ms)
          × (internal_pop_message s 0 ≡ (put_back s id ms, some (m, id))))

  pops_any :
      (s : Socket T P) (r : List (ℕ × List Message)) → s.received ≡ r → NonEmpty r → PopsAny s
  unfolding internal_pop_message pop_any has_message has_any_message queue find
  pops_any s [] e h = inl (λ id. rw e refl, ground arith)
  pops_any s ((id, []) ∷ r) e h = absurd (h.0 refl)
  pops_any s ((id, m ∷ ms) ∷ r) e h = inr (id, m, ms, ground arith, ground arith)

  pop_nonzero : (s : Socket T P) (n : ℕ) → internal_pop_message s (suc n) ≡ pop_of s (suc n)
  unfolding internal_pop_message has_message
  pop_nonzero s n = elim (pop_of-front s (suc n)) [
    | inl (h, k) ↦ ground (arith, h, k)
    | inr (m, ms, h, k) ↦ ground (arith, h, k)
  ]

  -- What `InternalPopMessage` of an id may do, 0 standing for any: no message waits for the id and none is
  -- given, or the front of the queue of an id is given, and taken out of that queue alone.
  pub data Pops (s : Socket T P) (id : ℕ) : Type 0 where
    nothing :
        internal_pop_message s id ≡ (s, none) → ((j : ℕ) → queue s (asked id j) ≡ []) → Pops s id
    front :
        (s' : Socket T P) (j : ℕ) (m : Message) (ms : List Message)
        → internal_pop_message s id ≡ (s', some (m, j))
        → (id ≡ 0) ⊎ (j ≡ id)
        → queue s j ≡ m ∷ ms
        → ((k : ℕ) → queue s' k ≡ ite (ℕ_discrete j k) ms (queue s k))
        → IsTrimmed s'
        → Pops s id

  -- Where no queue in the map is empty, `InternalPopMessage` gives no message only if none waits from the
  -- id asked for, or from any at all where 0 is asked for. Otherwise it gives the front of the queue of an
  -- id, which is the one asked for unless that is 0, takes it out of that queue alone, and leaves no
  -- empty queue in the map.
  pub internal_pop_message-front : (s : Socket T P) (id : ℕ) → IsTrimmed s → Pops s id
  unfolding asked
  internal_pop_message-front s zero h = elim (pops_any s s.received refl h) [
    | inl (none_waits, e) ↦ nothing e none_waits
    | inr (j, m, ms, waits, e) ↦
        front (put_back s j ms) j m ms e (inl refl) waits (λ k. queue-put_back s j k ms)
          (put_back-IsTrimmed s j ms h)
  ]
  internal_pop_message-front s (suc n) h = elim (pop_of-front s (suc n)) [
    | inl (none_waits, e) ↦ nothing (pop_nonzero s n ∙ e) (λ j. none_waits)
    | inr (m, ms, waits, e) ↦
        front (put_back s (suc n) ms) (suc n) m ms (pop_nonzero s n ∙ e) (inr refl) waits
          (λ k. queue-put_back s (suc n) k ms) (put_back-IsTrimmed s (suc n) ms h)
  ]
