-- ===== src/Udp/Transfer.antt =====
-- `Send` of udp::Socket at the peers and `FetchData` at one socket, src/UDP.cpp, with a network between them that may
-- lose datagrams, bring them twice, and in any order.
mod Examples
use icon.Prelude.{
  ℕ, suc, ◌+◌, ◌≤◌, ◌<◌, ◌^◌, ◌≡◌, ◌≢◌, refl, sym, ap, ◌∙◌, subst, inl, inr, Bool, true, false, not,
  ◌&&◌, Option, none, some, List, [], ◌∷◌, ◌++◌, length, All, leb, if◌then◌else◌, leb→le,
  Bool-cases, Option-cases, arith,
}
use icon.Message.{Message, Outcome, done, undefined, create_optimal_buffer}
use icon.Message.RoundTrip.{IsMessage}
use icon.Endpoint.{AddressApi}
use icon.Udp.{Socket, udp_message_size_limit, send, send_message}
use icon.Udp.Ids.{IsWellFormed}
use icon.Udp.Trimmed.{IsTrimmed}
use icon.Udp.Fetch.{Peer, Datagram, datagram, fetch_data, fetch_each}
use icon.Udp.Queues.{queue_of}
use icon.Udp.Delivery.{Log, datagrams_of, sent_by, fetch_each-sorts}

-- A call of `Send` of a message: the socket that it is called on, what its address is at the other end, and whether
-- Boost reports an error.
pub record Sending (api : AddressApi) (U : Type 0) : Type 0 where
  pub socket : Socket U (Peer api)
  pub from : Peer api
  pub msg : Message
  pub err : Bool

-- What a call of `Send` brings, before the rest
abbrev pub arrived :
    {P : Type 0} → P → Outcome (Option (List ℕ × P) × Bool) → List (Datagram P) → List (Datagram P)
arrived from undefined rest = rest
arrived from (done (none, _)) rest = rest
arrived from (done (some (bytes, to'), _)) rest = datagram from bytes ∷ rest

module _ (api : AddressApi) {U : Type 0} where
  -- A socket that is open, and a message whose frame is small enough
  abbrev pub may_go : Sending api U → Bool
  may_go c =
      let ready : Bool = elim c.socket.sock [ none ↦ false | some _ ↦ true ] in
      ready && leb (length (create_optimal_buffer c.msg [])) udp_message_size_limit

  unfoldable pub went : List (Sending api U) → Log api
  went [] = []
  went (c ∷ cs) = let rest = went cs in if may_go c then (c.from, c.msg) ∷ rest else rest

  length-went : (cs : List (Sending api U)) → length (went cs) ≤ length cs
  unfolding went
  length-went [] = omega arith
  length-went (c ∷ cs) = elim (Bool-cases (may_go c)) [
    | inl t ↦ rw t (omega (arith, length-went cs))
    | inr f ↦ rw f (omega (arith, length-went cs))
  ]

  went-All :
      (cs : List (Sending api U))
      → All (λ c. IsMessage c.msg) cs
      → All (λ r. IsMessage r.1) (went cs)
  unfolding went
  went-All [] h = tt
  went-All (c ∷ cs) (h, hs) = elim (Bool-cases (may_go c)) [
    | inl t ↦ rw t (h, went-All cs hs)
    | inr f ↦ rw f (went-All cs hs)
  ]

  module _ (peers : Discrete (Option (Peer api))) (me : Peer api) where
    -- The datagrams that come of these calls, one for each time that the network brings what the call has sent
    unfoldable pub arrivals : List (Sending api U) → List (Datagram (Peer api))
    arrivals [] = []
    arrivals (c ∷ cs) =
        arrived c.from (send_message peers c.socket c.msg (some me) c.err) (arrivals cs)

    sends :
        (c : Sending api U)
        → send_message peers c.socket c.msg (some me) c.err ≡ (
            if may_go c
            then done (some (create_optimal_buffer c.msg [], me), not c.err)
            else done (none, false))
    unfolding send_message send
    sends c = elim (Option-cases c.socket.sock) [ inl e ↦ rw e refl | inr (x, e) ↦ rw e refl ]

    arrivals-went : (cs : List (Sending api U)) → arrivals cs ≡ datagrams_of api (went cs)
    unfolding arrivals went datagrams_of
    arrivals-went [] = refl
    arrivals-went (c ∷ cs) = elim (Bool-cases (may_go c)) [
      | inl t ↦
          ap (λ o. arrived c.from o (arrivals cs)) (sends c)
          ∙ rw t (ap (λ l. datagram c.from (create_optimal_buffer c.msg []) ∷ l) (arrivals-went cs))
      | inr f ↦ ap (λ o. arrived c.from o (arrivals cs)) (sends c) ∙ rw f (arrivals-went cs)
    ]

fetch_data-open :
    (api : AddressApi) {T : Type 0} (peers : Discrete (Option (Peer api))) (fuel : ℕ)
    (s : Socket T (Peer api)) (gs : List (Datagram (Peer api)))
    → s.sock ≢ none
    → fetch_data api peers fuel s gs ≡ fetch_each api peers fuel s gs
unfolding fetch_data
fetch_data-open api peers fuel s gs is_open = elim (Option-cases s.sock) [
  | inl closed ↦ absurd (is_open closed)
  | inr (x, e) ↦ ap (λ o. elim o [ none ↦ done s | some _ ↦ fetch_each api peers fuel s gs ]) e
]

-- Take calls of `Send` on `udp::Socket`s of any peers to one socket, of messages whose titles have no zero byte and whose
-- sizes do not wrap, in the order in which the network brings what they send, where a call may stand there twice, or not
-- at all. Where that socket is open, keeps its ids well and no empty queue, and `2^64` is not reached by its ids,
-- `FetchData` ends, and behind what waited from each peer stand the messages of that peer and of no other, in that
-- order: of the calls on open sockets, those whose frames have no more than 1280 bytes.
pub fetch_data-arrivals :
    (api : AddressApi) {T U : Type 0} (peers : Discrete (Option (Peer api))) (me : Peer api)
    (fuel : ℕ) (s : Socket T (Peer api)) (calls : List (Sending api U))
    → s.sock ≢ none
    → IsWellFormed peers s
    → IsTrimmed s
    → s.next_empty_id + length calls + 1 < 2 ^ 64
    → All (λ c. IsMessage c.msg) calls
    → (s' : Socket T (Peer api)) × (fetch_data api peers (suc fuel) s (arrivals api peers me calls)
        ≡ done s')
      × IsWellFormed peers s'
      × IsTrimmed s'
      × ((x : Option (Peer api))
          → queue_of peers s' x ≡ queue_of peers s x ++ sent_by api peers x (went api calls))
fetch_data-arrivals api peers me fuel s calls is_open is trim room all =
    let (s', runs, well, trimmed, queues) =
      fetch_each-sorts api peers fuel s (went api calls) is trim
        (omega (arith, length-went api calls)) (went-All api calls all) in
    let same = arrivals-went api peers me calls in
    (s', fetch_data-open api peers (suc fuel) s _ is_open ∙ rw same runs, well, trimmed, queues)
