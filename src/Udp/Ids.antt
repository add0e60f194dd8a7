-- ===== src/Udp/Ids.antt =====
-- The ids that `udp::Socket` gives to endpoints.
use icon.Prelude.{
  ℕ, suc, ◌+◌, ◌^◌, ◌≤◌, ◌<◌, ◌≡◌, refl, ap, ◌∙◌, false, Option, none, some, arith, Option-cases,
  inl, inr, List,
}
use native.Mathlib.Decide.{ℕ_discrete}
use icon.Prelude.Map.{find}
use icon.NumberBuffer.{u64}
use icon.Message.{Message}
use icon.BiMap.{insert, has_b}
use icon.BiMap.Bijection.{IsBijection, insert-IsBijection, without}
use icon.Udp.{Socket, pop_next_empty_id, id_of}
use mathlib.Core.Logic.{ite}

module _ {T P : Type 0} (peers : Discrete (Option P)) where
  -- The map of ids and endpoints is a bijection, and no id in it or with a queue is above the last one
  -- that was given out.
  pub record IsWellFormed (s : Socket T P) : Type 0 where
    pub bijection : IsBijection peers ℕ_discrete s.endpoint_id
    pub bounded :
        (id : ℕ) (e : Option P)
        → find ℕ_discrete s.endpoint_id.t2t1 id ≡ some e
        → id ≤ s.next_empty_id
    pub queued :
        (id : ℕ) (q : List Message) → find ℕ_discrete s.received id ≡ some q → id ≤ s.next_empty_id

  unknown :
      (s : Socket T P)
      → IsWellFormed s
      → find ℕ_discrete s.endpoint_id.t2t1 (s.next_empty_id + 1) ≡ none
  unknown s is = elim (Option-cases (find ℕ_discrete s.endpoint_id.t2t1 (s.next_empty_id + 1))) [
    | inl e ↦ e
    | inr (e, h) ↦ grind (arith, is.bounded (s.next_empty_id + 1) e h)
  ]

  has_b-unknown :
      (s : Socket T P)
      → IsWellFormed s
      → has_b peers ℕ_discrete s.endpoint_id (s.next_empty_id + 1) ≡ false
  unfolding has_b
  has_b-unknown s is = ground (arith, unknown s is)

  -- What one round of the loop of `PopNextEmptyId` finds.
  pub pop_next_empty_id-next :
      (fuel : ℕ) (s : Socket T P)
      → IsWellFormed s
      → s.next_empty_id + 2 < 2 ^ 64
      → pop_next_empty_id peers (suc fuel) s
        ≡ some (record s { next_empty_id = s.next_empty_id + 1 }, s.next_empty_id + 1)
  unfolding pop_next_empty_id
  pop_next_empty_id-next fuel s is h =
      let small : u64 (s.next_empty_id + 1) ≡ s.next_empty_id + 1 = omega arith in
      rw (small, has_b-unknown s is) (ground arith)

  pub without-unknown :
      (s : Socket T P) (x : Option P)
      → IsWellFormed s
      → without ℕ_discrete (s.next_empty_id + 1) (find peers s.endpoint_id.t1t2 x)
        ≡ find peers s.endpoint_id.t1t2 x
  unfolding without
  without-unknown s x is = elim (Option-cases (find peers s.endpoint_id.t1t2 x)) [
    | inl e ↦ rw e refl
    | inr (id, e) ↦ grind (arith, is.bounded id x (is.bijection.there x id e))
  ]

  -- The socket after `GetId` of an endpoint that has no id yet.
  abbrev pub with_id : Socket T P → Option P → Socket T P
  with_id s e = record s {
    next_empty_id = s.next_empty_id + 1;
    endpoint_id = insert peers ℕ_discrete s.endpoint_id e (s.next_empty_id + 1);
  }

  pub id_of-known :
      (fuel : ℕ) (s : Socket T P) (e : Option P) (id : ℕ)
      → find peers s.endpoint_id.t1t2 e ≡ some id
      → id_of peers fuel s e ≡ some (s, id)
  unfolding id_of
  id_of-known fuel s e id h = ground arith

  pub id_of-new :
      (fuel : ℕ) (s : Socket T P) (e : Option P)
      → IsWellFormed s
      → s.next_empty_id + 2 < 2 ^ 64
      → find peers s.endpoint_id.t1t2 e ≡ none
      → id_of peers (suc fuel) s e ≡ some (with_id s e, s.next_empty_id + 1)
  unfolding id_of
  id_of-new fuel s e is room h = ground (arith, pop_next_empty_id-next fuel s is room)

  module _ (s : Socket T P) (is : IsWellFormed s) (e : Option P) where
    pub find-with_id :
        (x : Option P)
        → find peers (with_id s e).endpoint_id.t1t2 x
          ≡ ite (peers e x) (some (s.next_empty_id + 1)) (find peers s.endpoint_id.t1t2 x)
    find-with_id x =
        (insert-IsBijection peers ℕ_discrete s.endpoint_id e (s.next_empty_id + 1) is.bijection).1 x
        ∙ ap (ite (peers e x) (some (s.next_empty_id + 1))) (without-unknown s x is)

    pub with_id-IsWellFormed : find peers s.endpoint_id.t1t2 e ≡ none → IsWellFormed (with_id s e)
    unfolding without
    with_id-IsWellFormed h =
        let is' =
          insert-IsBijection peers ℕ_discrete s.endpoint_id e (s.next_empty_id + 1) is.bijection in
        record {
          bijection = is'.0;
          bounded = λ id x k. elim (Option-cases (find ℕ_discrete s.endpoint_id.t2t1 id)) [
            | inl none_there ↦ grind (arith, is'.2 id)
            | inr (y, there) ↦ grind (arith, is.bounded id y there)
          ];
          queued = λ id q k. grind (arith, is.queued id q k);
        }
