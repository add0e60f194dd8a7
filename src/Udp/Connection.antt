-- ===== src/Udp/Connection.antt =====
-- `udp::Connection`, the comparisons of `udp::Endpoint`, and the members of `udp::Socket` that wait,
-- src/UDP.cpp. A `Connection` holds a shared pointer to its socket: the operations take the socket that it
-- points to and give it back.
use icon.Prelude.{
  ℕ, Bool, true, false, not, ◌&&◌, ◌||◌, Option, none, some, List, [], ◌∷◌, ltb, ◌==◌,
  if◌then◌else◌,
}
use icon.Message.{Message, create_optimal_buffer, Outcome, ◌>>=◌, done}
use icon.Endpoint.{Endpoint, AddressApi, of_boost, to_boost}
use icon.Udp.{
  Socket, close, has_message, internal_pop_message, send, send_message, close_endpoint, close_id,
}
use icon.Udp.Fetch.{Peer, Datagram, get_id, fetch_data}

-- `<`, `==` and `!=` of `udp::Endpoint`, where `lt` and `eq` are Boost's.
module _ {P : Type 0} (lt' eq' : P → P → Bool) where
  unfoldable pub less : Option P → Option P → Bool
  less none none = false
  less none (some q) = true
  less (some p) none = false
  less (some p) (some q) = lt' p q

  unfoldable pub equals : Option P → Option P → Bool
  equals none none = true
  equals none (some q) = false
  equals (some p) none = false
  equals (some p) (some q) = eq' p q

  unfoldable pub differs : Option P → Option P → Bool
  differs none none = false
  differs none (some q) = true
  differs (some p) none = true
  differs (some p) (some q) = not (eq' p q)

-- `shared` is the address of the socket.
pub record Connection (P : Type 0) : Type 0 where
  pub shared : ℕ
  pub endpoint : P
  pub global_endpoint : Endpoint
  pub id : ℕ

module _ (api : AddressApi) {T : Type 0} (peers : Discrete (Option (Peer api))) where
  -- `Open`, where `bound` is the socket that Boost makes; `false` where Boost does not read the address,
  -- which leaves the socket closed.
  unfoldable pub open_at : T → Socket T (Peer api) → Endpoint → Socket T (Peer api) × Bool
  open_at bound s e = elim (to_boost api e) [
    | none ↦ (close s, false)
    | some _ ↦ (record (close s) { sock = some bound }, true)
  ]

  -- `CloseEndpoint` of a `GlobalEndpoint`
  unfoldable pub close_global : Socket T (Peer api) → Endpoint → Option (Socket T (Peer api))
  close_global s e = elim (to_boost api e) [
    | none ↦ none
    | some end' ↦ some (close_endpoint peers s (some end'))
  ]

  -- The wait of `InternalPopMessage`: in each round a reading of `clock()` and the datagrams that the next
  -- `FetchData` finds. The list ends where the time is over.
  unfoldable pub wait_message :
      (fuel : ℕ) (id end' : ℕ)
      → Socket T (Peer api)
      → List (ℕ × List (Datagram (Peer api)))
      → Outcome (Socket T (Peer api))
  wait_message fuel id end' s [] = done s
  wait_message fuel id end' s ((now, found) ∷ rounds) =
      let rest = (do s' ← fetch_data api peers fuel s found; wait_message fuel id end' s' rounds) in
      if not (has_message s id) && ltb now end' then rest else done s

  -- `InternalPopMessage`, of which `PopAnyMessage` and `PopMessage` are the cases of 0 and of an id. The list
  -- is empty where `timeoutms` is not positive.
  unfoldable pub pop_message :
      (fuel : ℕ) (id end' : ℕ)
      → Socket T (Peer api)
      → List (Datagram (Peer api))
      → List (ℕ × List (Datagram (Peer api)))
      → Outcome (Socket T (Peer api) × Option (Message × ℕ))
  unfolding wait_message
  pop_message fuel id end' s found rounds = do
    s₁ ← fetch_data api peers fuel s found
    s₂ ← wait_message fuel id end' s₁ rounds
    done (internal_pop_message s₂ id)

  -- Connection(socket, endpoint)
  unfoldable pub connection :
      (fuel shared : ℕ)
      → Socket T (Peer api)
      → Endpoint
      → Option (Socket T (Peer api) × Connection (Peer api))
  connection fuel shared s e = elim (to_boost api e) [
    | none ↦ none
    | some end' ↦ elim (get_id api peers fuel s (of_boost api end')) [
      | none ↦ none
      | some (s', id) ↦
          some (s', record { shared = shared; endpoint = end'; global_endpoint = e; id = id })
    ]
  ]

  -- `PopMessage` of a connection
  unfoldable pub pop_by :
      (fuel end' : ℕ)
      → Connection (Peer api)
      → Socket T (Peer api)
      → List (Datagram (Peer api))
      → List (ℕ × List (Datagram (Peer api)))
      → Outcome (Socket T (Peer api) × Option (Message × ℕ))
  unfolding pop_message
  pop_by fuel end' c s found rounds = pop_message fuel c.id end' s found rounds

  -- ~Connection()
  unfoldable pub end_connection : Connection (Peer api) → Socket T (Peer api) → Socket T (Peer api)
  end_connection c s = close_id peers s c.id

-- `Send` to a `GlobalEndpoint`, of bytes and of a message; `none` where Boost does not read the address.
module _ (api : AddressApi) {T : Type 0} where
  unfoldable pub send_to_global :
      Socket T (Peer api)
      → List ℕ
      → Endpoint
      → Bool
      → Option (Outcome (Option (List ℕ × Peer api) × Bool))
  send_to_global s buffer e err = elim (to_boost api e) [
    | none ↦ none
    | some end' ↦ some (send s buffer (some end') err)
  ]

  unfoldable pub send_message_to_global :
      Socket T (Peer api)
      → Message
      → Endpoint
      → Bool
      → Option (Outcome (Option (List ℕ × Peer api) × Bool))
  unfolding send_to_global
  send_message_to_global s msg e err = send_to_global s (create_optimal_buffer msg []) e err

-- `==`, `!=` and `<`
unfoldable pub same_connection : {P : Type 0} → Connection P → Connection P → Bool
same_connection c d = c.id == d.id && c.shared == d.shared

unfoldable pub other_connection : {P : Type 0} → Connection P → Connection P → Bool
other_connection c d = not (c.id == d.id) || not (c.shared == d.shared)

unfoldable pub before_connection : {P : Type 0} → Connection P → Connection P → Bool
before_connection c d =
    if ltb c.shared d.shared then true else if ltb d.shared c.shared then false else ltb c.id d.id

-- `Send`, `HasMessage`
module _ {T P : Type 0} where
  unfoldable pub send_by :
      Connection P → Socket T P → List ℕ → Bool → Outcome (Option (List ℕ × P) × Bool)
  send_by c s buffer err = send s buffer (some c.endpoint) err

  unfoldable pub send_message_by :
      Discrete (Option P)
      → Connection P
      → Socket T P
      → Message
      → Bool
      → Outcome (Option (List ℕ × P) × Bool)
  send_message_by peers c s msg err = send_message peers s msg (some c.endpoint) err

  unfoldable pub waits_at : Connection P → Socket T P → Bool
  waits_at c s = has_message s c.id
