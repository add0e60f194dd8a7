-- ===== src/Udp/Fetch.antt =====
-- The members of `udp::Socket` that turn addresses into ids and fetch datagrams, src/UDP.cpp.
use icon.Prelude.{ℕ, Option, none, some, List, [], ◌∷◌, ◌++◌, if◌then◌else◌}
use native.Mathlib.Decide.{ℕ_discrete}
use icon.Prelude.Map.{assign}
use icon.Message.{message, Outcome, done, undefined, ◌>>=◌, try_read_message_from_buffer}
use icon.BiMap.{get_a, has_b}
use icon.Endpoint.{Endpoint, no_endpoint, AddressApi, of_boost, to_boost}
use icon.Udp.{Socket, queue, id_of}

-- Boost's endpoint
abbrev pub Peer : AddressApi → Type 0
Peer api = api.Address × ℕ

-- A datagram as `receive_from` gives it, of at most `udp_message_size_limit` bytes, or an error.
pub data Datagram (P : Type 0) : Type 0 where
  datagram : (sender : P) (bytes : List ℕ) → Datagram P
  failure : Datagram P

module _ (api : AddressApi) {T : Type 0} (peers : Discrete (Option (Peer api))) where
  -- `GetId`: `none` where Boost does not read the address, or no id is found.
  unfoldable pub get_id :
      (fuel : ℕ) → Socket T (Peer api) → Endpoint → Option (Socket T (Peer api) × ℕ)
  unfolding id_of
  get_id fuel s e = elim (to_boost api e) [
    | none ↦ none
    | some end' ↦ id_of peers fuel s (some end')
  ]

  -- `GetEndpoint`
  unfoldable pub get_endpoint : Socket T (Peer api) → ℕ → Endpoint
  get_endpoint s id =
      if has_b peers ℕ_discrete s.endpoint_id id
      then elim (get_a peers ℕ_discrete s.endpoint_id id) [
        | none ↦ no_endpoint
        | some end' ↦ of_boost api end'
      ]
      else no_endpoint

  -- A round of `FetchData`. A title that runs on past the datagram reads what an earlier one has left in
  -- the buffer, and is `undefined` here; so is a `GetId` that finds nothing.
  unfoldable pub receive :
      (fuel : ℕ) → Socket T (Peer api) → Datagram (Peer api) → Outcome (Socket T (Peer api))
  unfolding get_id queue
  receive fuel s failure = done s
  receive fuel s (datagram sender bytes) = elim (get_id fuel s (of_boost api sender)) [
    | none ↦ undefined
    | some (s', id) ↦ do
      (found, readed) ← try_read_message_from_buffer message bytes
      done (record s' { received = assign ℕ_discrete s'.received id (queue s' id ++ (found ∷ [])) })
  ]

  -- `FetchData`, with the datagrams that it finds.
  unfoldable pub fetch_each :
      (fuel : ℕ) → Socket T (Peer api) → List (Datagram (Peer api)) → Outcome (Socket T (Peer api))
  unfolding receive
  fetch_each fuel s [] = done s
  fetch_each fuel s (g ∷ gs) = do s' ← receive fuel s g; fetch_each fuel s' gs

  unfoldable pub fetch_data :
      (fuel : ℕ) → Socket T (Peer api) → List (Datagram (Peer api)) → Outcome (Socket T (Peer api))
  unfolding fetch_each
  fetch_data fuel s gs = elim s.sock [ none ↦ done s | some _ ↦ fetch_each fuel s gs ]
