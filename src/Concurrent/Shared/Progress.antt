-- ===== src/Concurrent/Shared/Progress.antt =====
-- What a thread within `push` of a `mpsc_stack` or `mpmc_stack` of src/Concurrent.hpp does where the others rest.
use icon.Prelude.{
  ℕ, suc, ◌≡◌, ◌⊎◌, inl, inr, refl, subst, Option, some, none, List, ◌∷◌, sym, ◌∙◌, ◌≤◌, ap, arith,
}
use native.Mathlib.Decide.{ℕ_discrete}
use icon.Concurrent.Memory.{Ptr}
use icon.Concurrent.Shared.{
  Kind, Memory, Place, idle, push_load, push_store, push_swap, System, Event, pushed, update,
  set_next, Move, load_push, store_push, swap_push, fail_push, note,
}

-- A number of moves of one thread while the others rest
pub data Solo (k : Kind) (i : ℕ) (s : System) : ℕ → System → Type 0 where
  rest : Solo k i s 0 s
  then_move :
      {n : ℕ} {t : System} {x x' : Place} {m' : Memory} {e : Option Event}
      → Solo k i s n t
      → t.place i ≡ x
      → Move k t.memory x m' x' e
      → Solo k i s (suc n) (record { memory = m'; place = update t.place i x'; log = note e t.log })

-- The places of a thread that pushes the node
pub data Pushing (p : Ptr) : Place → Type 0 where
  before_load : Pushing p (push_load p)
  before_store : (f : Ptr) → Pushing p (push_store p f)
  before_swap : Pushing p (push_swap p)

-- Thread `i` has ended its call, and the node is on top.
pub record Pushed (i : ℕ) (p : Ptr) (log : List Event) (t : System) : Type 0 where
  pub outside : t.place i ≡ idle
  pub noted : t.log ≡ pushed p ∷ log
  pub on_top : t.memory.first ≡ p

-- Thread `i` alone can end its call from here, with `most` moves at most.
pub record Ends (k : Kind) (i : ℕ) (p : Ptr) (log : List Event) (most : ℕ) (t : System)
    : Type 0 where
  pub moves : ℕ
  pub end' : System
  pub run : Solo k i t moves end'
  pub few : moves ≤ most
  pub ended : Pushed i p log end'

update_self : (f : ℕ → Place) (i : ℕ) (x : Place) → update f i x i ≡ x
unfolding update
update_self f i x = ground arith

set_next_self : (m : Memory) (p q : Ptr) → (set_next m p q).next p ≡ q
unfolding set_next
set_next_self m p q = ground arith

set_next_first : (m : Memory) (p q : Ptr) → (set_next m p q).first ≡ m.first
unfolding set_next
set_next_first m p q = refl

first_move :
    {k : Kind} {i : ℕ} {s : System} {x x' : Place} {m' : Memory} {e : Option Event} {n : ℕ}
    {u : System}
    → s.place i ≡ x
    → Move k s.memory x m' x' e
    → Solo k i (record { memory = m'; place = update s.place i x'; log = note e s.log }) n u
    → Solo k i s (suc n) u
first_move at m rest = then_move rest at m
first_move at m (then_move r at' m') = then_move (first_move at m r) at' m'

-- What a place within `push` still needs, where the exchange finds `first` as the node has it, or not
module _ (k : Kind) (i : ℕ) (p : Ptr) where
  swap_now :
      (s : System)
      → s.place i ≡ push_swap p
      → s.memory.first ≡ s.memory.next p
      → (u : System) × Solo k i s 1 u × Pushed i p s.log u
  swap_now s at same = (
    record {
      memory = record s.memory { first = p };
      place = update s.place i idle;
      log = pushed p ∷ s.log;
    },
    then_move rest at (swap_push p same),
    record { outside = update_self s.place i idle; noted = refl; on_top = refl },
  )

  from_load :
      (s : System) → s.place i ≡ push_load p → (u : System) × Solo k i s 3 u × Pushed i p s.log u
  from_load s at =
      let f = s.memory.first in
      let s₁ : System = record s { place = update s.place i (push_store p f) } in
      let s₂ : System = record s₁ {
        memory = set_next s.memory p f;
        place = update s₁.place i (push_swap p);
      } in
      let (u, run, ended) =
        swap_now s₂ (update_self s₁.place i (push_swap p))
          (set_next_first s.memory p f ∙ sym (set_next_self s.memory p f)) in
      (
        u,
        first_move at (load_push p)
            (first_move (update_self s.place i (push_store p f)) (store_push p f) run),
        ended,
      )

  from_swap : (s : System) → s.place i ≡ push_swap p → Ends k i p s.log 4 s
  from_swap s at = elim (ℕ_discrete s.memory.first (s.memory.next p)) [
    | yes same ↦
        let (u, run, ended) = swap_now s at same in
        record { moves = 1; end' = u; run = run; few = omega arith; ended = ended }
    | no other ↦
        let (u, run, ended) =
          from_load
            (record s {
              memory = set_next s.memory p s.memory.first;
              place = update s.place i (push_load p);
            })
            (update_self s.place i (push_load p)) in
        record {
          moves = 4;
          end' = u;
          run = first_move at (fail_push p) run;
          few = omega arith;
          ended = ended;
        }
  ]

  from_store : (s : System) (f : Ptr) → s.place i ≡ push_store p f → Ends k i p s.log 5 s
  from_store s f at =
      let s₁ : System = record s {
        memory = set_next s.memory p f;
        place = update s.place i (push_swap p);
      } in
      let at' = update_self s.place i (push_swap p) in
      let r = from_swap s₁ at' in
      record {
        moves = suc r.moves;
        end' = r.end';
        run = first_move at (store_push p f) r.run;
        few = omega (arith, r.few);
        ended = r.ended;
      }

  ends : (s : System) (x : Place) → Pushing p x → s.place i ≡ x → Ends k i p s.log 5 s
  ends s x before_load at =
      let (u, run, ended) = from_load s at in
      record { moves = 3; end' = u; run = run; few = omega arith; ended = ended }
  ends s x (before_store f) at = from_store s f at
  ends s x before_swap at =
      let r = from_swap s at in
      record {
        moves = r.moves;
        end' = r.end';
        run = r.run;
        few = omega (arith, r.few);
        ended = r.ended;
      }

  idle_rests : {m m' : Memory} {x' : Place} {e : Option Event} → ¬ Move k m idle m' x' e
  idle_rests h = elim h [ ]

  Pushing-Move :
      {m : Memory} {x : Place}
      → Pushing p x
      → {m' : Memory} {x' : Place} {e : Option Event} → Move k m x m' x' e
      → ((e ≡ none) × Pushing p x') ⊎ ((e ≡ some (pushed p)) × (x' ≡ idle) × (m'.first ≡ p))
  Pushing-Move before_load (load_push p) = inl (refl, before_store _)
  Pushing-Move (before_store _) (store_push p f) = inl (refl, before_swap)
  Pushing-Move before_swap (swap_push p same) = inr (refl, refl, refl)
  Pushing-Move before_swap (fail_push p) = inl (refl, before_load)

  goes :
      {s : System} {n : ℕ} {t : System}
      → Pushing p (s.place i)
      → Solo k i s n t
      → Pushed i p s.log t ⊎ ((t.log ≡ s.log) × Pushing p (t.place i))
  goes at rest = inr (refl, at)
  goes {s} at (then_move {t} {x} {x'} {m'} {e} r here move) = elim (goes at r) [
    | inl done ↦
        absurd (idle_rests (subst (λ y. Move k t.memory y m' x' e) (sym here ∙ done.outside) move))
    | inr (log, within) ↦ elim (Pushing-Move (subst (Pushing p) here within) move) [
      | inl (none_yet, within') ↦ inr (
        ap (λ o. note o t.log) none_yet ∙ log,
        subst (Pushing p) (sym (update_self t.place i x')) within',
      )
      | inr (noted, out, top) ↦ inl (record {
        outside = update_self t.place i x' ∙ out;
        noted = ap (λ o. note o t.log) noted ∙ ap (λ l. pushed p ∷ l) log;
        on_top = top;
      })
    ]
  ]

-- A thread within `push`, wherever it is there and whatever the state of the stack and of the others is, that goes on
-- alone for any number of moves, failed exchanges among them: either its call has ended, with its node pushed and on
-- top, or it is still within `push` with nothing pushed, and alone can end its call so with 5 more moves at most.
pub push-finishes :
    (k : Kind) (i : ℕ) (p : Ptr) (n : ℕ) (s t : System)
    → Pushing p (s.place i)
    → Solo k i s n t
    → Pushed i p s.log t ⊎ ((t.log ≡ s.log) × Pushing p (t.place i) × Ends k i p s.log 5 t)
push-finishes k i p n s t at run = elim (goes k i p at run) [
  | inl done ↦ inl done
  | inr (log, within) ↦
      inr (log, within, subst (λ l. Ends k i p l 5 t) log (ends k i p t (t.place i) within refl))
]
