-- ===== src/Asio/Server.antt =====
-- `asio::Server<T>` of src/Socket.hpp and src/Socket.cpp. The virtual functions of the class are a
-- record that the protocol fills; `A` stands for Boost's acceptor and `S` for the protocol's sockets.
pub mod Accepting
use icon.Prelude.{
  ℕ, Bool, true, false, not, ◌&&◌, Option, none, some, List, [], ◌∷◌, ◌++◌, ltb, if◌then◌else◌,
}
use icon.Message.{Outcome, done, undefined}

pub record Server (A S : Type 0) : Type 0 where
  pub acceptor : Option A
  pub new_sockets : List S
  pub current_accepting_socket : Option S

-- `Valid`, `CreateEmptyAcceptingSocket` and `Accept`, which gives the socket as it leaves it.
pub record Protocol (A S : Type 0) : Type 0 where
  pub is_valid : Server A S → Bool
  pub create_empty_accepting_socket : Server A S → Option S
  pub accept : S → S × Bool

-- `Valid` of the base class
unfoldable pub valid : {A S : Type 0} → Server A S → Bool
valid s = elim s.acceptor [ none ↦ false | some _ ↦ true ]

unfoldable pub new_server : {A S : Type 0} → Server A S
new_server = record { acceptor = none; new_sockets = []; current_accepting_socket = none }

-- `Close` of the base class
unfoldable pub close : {A S : Type 0} → Server A S → Server A S
close s = record s { acceptor = none }

-- `Open`, with the acceptor that Boost makes
unfoldable pub open_at : {A S : Type 0} → A → Server A S → Server A S
unfolding close
open_at acceptor s = record (close s) { acceptor = some acceptor }

module _ {A S : Type 0} (p : Protocol A S) where
  unfoldable pub is_listening : Server A S → Bool
  is_listening s = p.is_valid s && elim s.current_accepting_socket [ none ↦ false | some _ ↦ true ]

  -- `StartListening`, and whether an `async_accept` was begun. It goes through the acceptor and the new
  -- socket, neither of which may be null.
  unfoldable pub begin_accept : Option A → Option S → Server A S → Outcome (Server A S × Bool)
  begin_accept (some acceptor) (some socket) s = done (s, true)
  begin_accept none socket s = undefined
  begin_accept (some acceptor) none s = undefined

  unfoldable pub start_listening : Server A S → Outcome (Server A S × Bool)
  unfolding is_listening begin_accept
  start_listening s =
      let created = p.create_empty_accepting_socket s in
      if is_listening s
      then done (s, false)
      else begin_accept s.acceptor created (record s { current_accepting_socket = created })

  -- `if(Accept(currentAcceptingSocket))` and what follows; a null pointer is not accepted.
  unfoldable pub accepted : Option S → Server A S → Server A S
  accepted none s = record s { current_accepting_socket = none }
  accepted (some socket) s =
      let (socket', taken) = p.accept socket in
      if taken
      then record s {
        new_sockets = s.new_sockets ++ (socket' ∷ []);
        current_accepting_socket = none;
      }
      else record s { current_accepting_socket = none }

  -- `DoAccept`
  unfoldable pub do_accept : Server A S → Bool → Outcome (Server A S × Bool)
  unfolding accepted start_listening
  do_accept s err =
      let next = start_listening (accepted s.current_accepting_socket s) in
      if err then done (record s { current_accepting_socket = none }, false) else next

  -- `HasNewSocket`, where `poll` is what `IoContextPollOne` does
  unfoldable pub has_new_socket : (Server A S → Server A S) → Server A S → Server A S × Bool
  has_new_socket poll s =
      let nothing : Bool = elim s.new_sockets [ [] ↦ true | _ ∷ _ ↦ false ] in
      let polled = if nothing then poll s else s in
      let found : Bool = elim polled.new_sockets [ [] ↦ false | _ ∷ _ ↦ true ] in
      if p.is_valid s then (polled, found) else (s, false)

  -- The wait of `TryGetNewSocket`: in each round a reading of `clock()` and what a poll does. The list
  -- ends where the time is over.
  unfoldable pub wait_socket : List (ℕ × (Server A S → Server A S)) → ℕ → Server A S → Server A S
  wait_socket [] end' s = s
  wait_socket ((now, poll) ∷ rounds) end' s =
      let rest = wait_socket rounds end' (poll s) in
      let nothing : Bool = elim s.new_sockets [ [] ↦ true | _ ∷ _ ↦ false ] in
      if ltb now end' && (nothing && p.is_valid s) then rest else s

-- `TryGetNewSocket` once the wait is over
unfoldable pub pop_socket : {A S : Type 0} → Server A S → Server A S × Option S
pop_socket s = elim s.new_sockets [
  | [] ↦ (s, none)
  | x ∷ xs ↦ (record s { new_sockets = xs }, some x)
]

module _ {A S : Type 0} (p : Protocol A S) where
  unfoldable pub try_get_new_socket :
      (Server A S → Server A S)
      → List (ℕ × (Server A S → Server A S))
      → ℕ
      → Server A S
      → Server A S × Option S
  unfolding wait_socket pop_socket
  try_get_new_socket poll rounds end' s = pop_socket (wait_socket p rounds end' (poll s))

  -- `GetNewSocket`: each round is a call of `TryGetNewSocket` with its polls. The list ends where the
  -- server is not valid any more, or after the last round that is looked at.
  unfoldable pub get_new_socket :
      List ((Server A S → Server A S) × List (ℕ × (Server A S → Server A S)) × ℕ)
      → Server A S
      → Server A S × Option S
  unfolding try_get_new_socket
  get_new_socket [] s = (s, none)
  get_new_socket ((poll, rounds, end') ∷ more) s =
      let (s', found) = try_get_new_socket poll rounds end' s in
      let rest = get_new_socket more s' in
      if p.is_valid s then elim found [ none ↦ rest | some x ↦ (s', some x) ] else (s, none)

-- `Accept` of the base class
unfoldable pub accept : {S : Type 0} → Option S → Bool
accept none = false
accept (some socket) = true
