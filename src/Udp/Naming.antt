-- ===== src/Udp/Naming.antt =====
-- `GetId` and `GetEndpoint` of src/UDP.cpp against one another.
use icon.Prelude.{ℕ, suc, ◌+◌, ◌^◌, ◌<◌, ◌≡◌, Option, some, arith, Option-cases, inl, inr}
use icon.Prelude.Map.{find}
use icon.BiMap.{has_b, get_a}
use icon.Endpoint.{Endpoint, AddressApi, of_boost, to_boost}
use icon.Udp.{Socket, id_of}
use icon.Udp.Ids.{IsWellFormed, with_id, id_of-known, id_of-new, find-with_id, with_id-IsWellFormed}
use icon.Udp.Fetch.{Peer, get_id, get_endpoint}
use mathlib.Core.Logic.{ite}

module _ (api : AddressApi) {T : Type 0} (peers : Discrete (Option (Peer api))) where
  get_endpoint-known :
      (s : Socket T (Peer api)) (p : Peer api) (id : ℕ)
      → IsWellFormed peers s
      → find peers s.endpoint_id.t1t2 (some p) ≡ some id
      → get_endpoint api peers s id ≡ of_boost api p
  unfolding get_endpoint has_b get_a
  get_endpoint-known s p id is h = ground (arith, is.bijection.there (some p) id h)

  get_id-via :
      (fuel : ℕ) (s s' : Socket T (Peer api)) (e : Endpoint) (p : Peer api) (id : ℕ)
      → to_boost api e ≡ some p
      → id_of peers fuel s (some p) ≡ some (s', id)
      → get_id api peers fuel s e ≡ some (s', id)
  unfolding get_id
  get_id-via fuel s s' e p id h k = ground arith

  -- Where the ids are kept well and `2^64` is not reached by them, and Boost reads the address of `e`:
  -- `GetId` finds an id in at most one round of `PopNextEmptyId` and keeps the ids well, a second call
  -- finds the same id and changes nothing, `GetEndpoint` of the id is the address that was read, and
  -- the ids of the other endpoints are what they were.
  pub get_id-stable :
      (fuel again : ℕ) (s : Socket T (Peer api)) (e : Endpoint) (p : Peer api)
      → IsWellFormed peers s
      → s.next_empty_id + 2 < 2 ^ 64
      → to_boost api e ≡ some p
      → (s' : Socket T (Peer api)) × (id : ℕ) × (get_id api peers (suc fuel) s e ≡ some (s', id))
        × IsWellFormed peers s'
        × (get_id api peers again s' e ≡ some (s', id))
        × (get_endpoint api peers s' id ≡ of_boost api p)
        × ((x : Option (Peer api))
            → find peers s'.endpoint_id.t1t2 x
              ≡ ite (peers (some p) x) (some id) (find peers s.endpoint_id.t1t2 x))
  get_id-stable fuel again s e p is room reads =
      elim (Option-cases (find peers s.endpoint_id.t1t2 (some p))) [
        | inl h ↦
            let s' = with_id peers s (some p) in
            let id = s.next_empty_id + 1 in
            let is' = with_id-IsWellFormed peers s is (some p) h in
            let has : find peers s'.endpoint_id.t1t2 (some p) ≡ some id =
              grind (arith, find-with_id peers s is (some p) (some p)) in
            (
              s',
              id,
              get_id-via (suc fuel) s s' e p id reads (id_of-new peers fuel s (some p) is room h),
              is',
              get_id-via again s' s' e p id reads (id_of-known peers again s' (some p) id has),
              get_endpoint-known s' p id is' has,
              find-with_id peers s is (some p),
            )
        | inr (id, h) ↦ (
          s,
          id,
          get_id-via (suc fuel) s s e p id reads (id_of-known peers (suc fuel) s (some p) id h),
          is,
          get_id-via again s s e p id reads (id_of-known peers again s (some p) id h),
          get_endpoint-known s p id is h,
          λ x. grind (arith, h),
        )
      ]
