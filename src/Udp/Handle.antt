-- ===== src/Udp/Handle.antt =====
-- `udp::Endpoint` of src/UDP.hpp and src/UDP.cpp: a pointer to an endpoint of Boost, `P`, which the object owns or only
-- refers to. The constructor with a flag and a pointer copies nothing in its other branch, which does not compile.
pub mod Ownership
pub mod Runs
mod Examples
use icon.Prelude.{
  ℕ, Bool, true, false, Option, none, some, List, [], ◌∷◌, ◌==◌, ◌||◌, if◌then◌else◌,
}
use icon.Endpoint.{Endpoint, no_endpoint, AddressApi, of_boost}

pub record Handle : Type 0 where
  pub ptr : ℕ
  pub ref : Bool

-- The endpoints of Boost at their addresses; none is at 0, which is NULL.
abbrev pub Heap : Type 0 → Type 0
Heap P = ℕ → Option P

unfoldable pub put : {A : Type 0} → (ℕ → Option A) → ℕ → Option A → ℕ → Option A
put h p c a = if a == p then c else h a

-- Endpoint(bool empty) and MakeEmpty()
unfoldable pub make_empty : Handle
make_empty = record { ptr = 0; ref = false }

-- Endpoint(true, ptr) and Make(ptr)
unfoldable pub make : ℕ → Handle
make p = record { ptr = p; ref = true }

-- Endpoint(Endpoint&&): the new object, and the one that was moved
unfoldable pub move : Handle → Handle × Handle
move other = (record { ptr = other.ptr; ref = other.ref }, other)

module _ {P : Type 0} where
  -- Endpoint(port), with what Boost makes of the port, Endpoint(), where the port is 0, and Endpoint(endpoint), with
  -- what UdpEndpoint gives. `new` gives the address `a`.
  unfoldable pub of_port : (ℕ → P) → ℕ → (a : ℕ) → Heap P → Handle × Heap P
  of_port v4 port a h = (record { ptr = a; ref = false }, put h a (some (v4 port)))

  unfoldable pub default_endpoint : (ℕ → P) → (a : ℕ) → Heap P → Handle × Heap P
  default_endpoint v4 a h = (record { ptr = a; ref = false }, put h a (some (v4 0)))

  unfoldable pub of_global : P → (a : ℕ) → Heap P → Handle × Heap P
  of_global endpoint a h = (record { ptr = a; ref = false }, put h a (some endpoint))

  -- Endpoint(const Endpoint&). `none` where it reads through a pointer to nothing.
  unfoldable pub copy : Handle → (a : ℕ) → Heap P → Option (Handle × Heap P)
  copy other a h = elim (h other.ptr) [
    | none ↦ none
    | some x ↦ some (record { ptr = a; ref = false }, put h a (some x))
  ]

  -- `if(!ref && ptr) delete ptr`, in the destructor and in the assignment. `none` where nothing is there to delete.
  unfoldable pub release : Handle → Heap P → Option (Heap P)
  release e h =
      if e.ref || e.ptr == 0
      then some h
      else elim (h e.ptr) [ none ↦ none | some x ↦ some (put h e.ptr none) ]

  unfoldable pub destroy : Handle → Heap P → Option (Heap P)
  destroy e h = release e h

  unfoldable pub assign : Handle → (other : Handle) → (a : ℕ) → Heap P → Option (Handle × Heap P)
  assign e other a h = elim (release e h) [ none ↦ none | some h' ↦ copy other a h' ]

-- operator GlobalEndpoint. `none` where it reads through a pointer to nothing.
unfoldable pub to_global : (api : AddressApi) → Handle → Heap (api.Address × ℕ) → Option Endpoint
to_global api e h =
    if e.ptr == 0
    then some no_endpoint
    else elim (h e.ptr) [ none ↦ none | some x ↦ some (of_boost api x) ]

-- The objects by their names
pub record World (P : Type 0) : Type 0 where
  pub heap : Heap P
  pub handles : ℕ → Option Handle

pub data Op (P : Type 0) : Type 0 where
  makes_empty : (i : ℕ) → Op P
  makes : (i p : ℕ) → Op P
  constructs : (i : ℕ) (x : P) (a : ℕ) → Op P
  copies : (i j a : ℕ) → Op P
  assigns : (i j a : ℕ) → Op P
  destroys : (i : ℕ) → Op P

module _ {P : Type 0} where
  unfoldable pub placed : World P → ℕ → Option (Handle × Heap P) → Option (World P)
  placed w i none = none
  placed w i (some (e, h)) = some (record { heap = h; handles = put w.handles i (some e) })

  -- What an object does, `none` where it has no meaning
  unfoldable pub apply : Op P → World P → Option (World P)
  apply (makes_empty i) w = placed w i (some (make_empty, w.heap))
  apply (makes i p) w = placed w i (some (make p, w.heap))
  apply (constructs i x a) w = placed w i (some (of_global x a w.heap))
  apply (copies i j a) w = elim (w.handles j) [
    | none ↦ none
    | some e ↦ placed w i (copy e a w.heap)
  ]
  apply (assigns i j a) w = elim (w.handles i) [
    | none ↦ none
    | some e ↦ elim (w.handles j) [ none ↦ none | some f ↦ placed w i (assign e f a w.heap) ]
  ]
  apply (destroys i) w = elim (w.handles i) [
    | none ↦ none
    | some e ↦ elim (destroy e w.heap) [
      | none ↦ none
      | some h ↦ some (record { heap = h; handles = put w.handles i none })
    ]
  ]

  unfoldable pub run : List (Op P) → World P → Option (World P)
  run [] w = some w
  run (op ∷ ops) w = elim (apply op w) [ none ↦ none | some w' ↦ run ops w' ]
